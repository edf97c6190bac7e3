-- ===== src/Base/Numbers.antt =====
-- JavaScript's numbers where the program computes with fractions: a parameter of the model.
use Prim.Native.Nat.{ℕ}
use mathlib.Core.Bool.{Bool}
use mathlib.Core.List.{List}

-- `parse` is `Number(text)`, `of_nat` a whole number, `lt` the test `<`, `round` is `Math.round`,
-- `eq` is `===`, `truthy` the test of a condition, `min` and `max` are those of `Math` for two
-- numbers, `to_fixed d x` is `x.toFixed(d)` and `show` is `String(x)`.
pub record Floats : Type 1 where
  pub Num : Type 0
  pub of_nat : ℕ → Num
  pub add : Num → Num → Num
  pub sub : Num → Num → Num
  pub mul : Num → Num → Num
  pub div : Num → Num → Num
  pub lt : Num → Num → Bool
  pub parse : List ℕ → Num
  pub eq : Num → Num → Bool
  pub truthy : Num → Bool
  pub min : Num → Num → Num
  pub max : Num → Num → Num
  pub round : Num → Num
  pub to_fixed : ℕ → Num → List ℕ
  pub show : Num → List ℕ
