-- ===== src/Base/Digits.antt =====
-- The digits of a number: the fuel of `decimal` is enough, and they are read back as the number.
use Prim.Native.Nat.{ℕ, zero, suc, ◌+◌, ◌-◌, ◌*◌, ◌/◌, ◌%◌, ◌<◌}
use mathlib.Core.Path.{◌≡◌, ap, ◌∙◌}
use mathlib.Core.Logic.{inl, inr}
use mathlib.Core.List.{[], ◌∷◌}
use native.Mathlib.Omega.{arith}
use marshal_pm.Base.Tests.{◌==◌, Bool-cases}
use marshal_pm.Base.Texts.{Text, decimal, decimal_from}

-- The number that digits stand for, after those that were read.
abbrev pub value_from : ℕ → Text → ℕ
value_from n [] = n
value_from n (c ∷ s) = value_from (10 * n + (c - 48)) s

value_from-decimal_from :
    (f n : ℕ) (acc : Text) → n < f → value_from 0 (decimal_from f n acc) ≡ value_from n acc
unfolding decimal_from
value_from-decimal_from zero n acc h = absurd (omega arith)
value_from-decimal_from (suc f) n acc h =
    let digits = (48 + n % 10) ∷ acc in
    elim (Bool-cases (n / 10 == 0)) [
      | inl single ↦
          let e : 10 * 0 + (48 + n % 10 - 48) ≡ n = ground arith in
          rw single (ap (λ m. value_from m acc) e)
      | inr several ↦
          let small : n / 10 < f = ground arith in
          let e : 10 * (n / 10) + (48 + n % 10 - 48) ≡ n = omega arith in
          rw several
            (value_from-decimal_from f (n / 10) digits small ∙ ap (λ m. value_from m acc) e)
    ]

-- The decimal digits of a number are read back as this number.
pub value_from-decimal : (n : ℕ) → value_from 0 (decimal n) ≡ n
unfolding decimal
value_from-decimal n = value_from-decimal_from (suc n) n [] (omega arith)
