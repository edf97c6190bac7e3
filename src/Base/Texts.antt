-- ===== src/Base/Texts.antt =====
-- A JavaScript string as the list of its code points; a lone surrogate stands for itself.
use Prim.Native.Char.{code}
use Prim.Native.String.{String}
use Prim.Native.Nat.{ℕ, zero, suc, ◌+◌, ◌-◌, ◌/◌, ◌%◌}
use mathlib.Core.Path.{◌≡◌, refl, ap, ◌∙◌}
use mathlib.Core.Logic.{◌≢◌, ◌↔◌, inl, inr}
use mathlib.Core.Bool.{Bool, true, false, ◌&&◌, ◌||◌}
use mathlib.Core.Option.{Option, none, some}
use mathlib.Core.List.{List, [], ◌∷◌, ◌++◌}
use native.Mathlib.Omega.{arith}
use marshal_pm.Base.Tests.{leb, ◌==◌, if◌then◌else◌, Bool-cases}
use marshal_pm.Base.Lists.{All, any, length}

abbrev pub Text : Type 0
Text = List ℕ

-- The code points of a literal.
abbrev pub codes : String → Text
codes String.[] = []
codes (String.◌∷◌ c s) = code c ∷ codes s

-- `a === b` on strings.
unfoldable pub text_eq : Text → Text → Bool
text_eq [] [] = true
text_eq (a ∷ s) (b ∷ t) = a == b && text_eq s t
text_eq _ _ = false

pub text_eq→eq : (s t : Text) → text_eq s t ≡ true → s ≡ t
unfolding text_eq
text_eq→eq [] [] h = refl
text_eq→eq [] (b ∷ t) h = cc
text_eq→eq (a ∷ s) [] h = cc
text_eq→eq (a ∷ s) (b ∷ t) h = ground (arith, text_eq→eq s t)

pub text_eq_refl : (s : Text) → text_eq s s ≡ true
unfolding text_eq
text_eq_refl [] = refl
text_eq_refl (a ∷ s) = ground (arith, text_eq_refl s)

pub text_eq_iff : (s t : Text) → (text_eq s t ≡ true) ↔ (s ≡ t)
text_eq_iff s t = (text_eq→eq s t, λ e. rw e (text_eq_refl t))

-- `includes` on an array of strings.
unfoldable pub has : Text → List Text → Bool
unfolding text_eq
has x xs = any (λ y. text_eq y x) xs

-- Truthiness of a string: all but "" are true.
abbrev pub is_blank : Text → Bool
is_blank [] = true
is_blank (c ∷ s) = false

-- `a || b` on strings.
abbrev pub or_else : Text → Text → Text
or_else [] d = d
or_else (c ∷ s) d = c ∷ s

-- The white space that `trim` removes and that `\s` matches.
unfoldable pub is_space : ℕ → Bool
is_space c =
    (leb 9 c && leb c 13)
    || c == 32
    || c == 160
    || c == 0x1680
    || (leb 0x2000 c && leb c 0x200a)
    || c == 0x2028
    || c == 0x2029
    || c == 0x202f
    || c == 0x205f
    || c == 0x3000
    || c == 0xfeff

unfoldable pub trim_start : Text → Text
unfolding is_space
trim_start [] = []
trim_start (c ∷ s) = let rest = trim_start s in if is_space c then rest else c ∷ s

-- Drops the white space at the end: a blank rest is dropped with the space before it.
unfoldable pub trim_end : Text → Text
unfolding is_space
trim_end [] = []
trim_end (c ∷ s) = let rest = trim_end s in if is_space c && is_blank rest then [] else c ∷ rest

unfoldable pub trim : Text → Text
unfolding trim_start trim_end
trim s = trim_end (trim_start s)

-- `s.split(sep)` for a separator of one character: always one part more than separators.
abbrev pub push_head : ℕ → List Text → List Text
push_head c [] = (c ∷ []) ∷ []
push_head c (w ∷ ws) = (c ∷ w) ∷ ws

unfoldable pub split_on : ℕ → Text → List Text
split_on sep [] = [] ∷ []
split_on sep (c ∷ s) = let rest = split_on sep s in if c == sep then [] ∷ rest else push_head c rest

-- `parts.join(sep)`.
unfoldable pub join : Text → List Text → Text
join sep [] = []
join sep (w ∷ []) = w
join sep (w ∷ v ∷ ws) = w ++ (sep ++ join sep (v ∷ ws))

-- `s.startsWith(p)`, with what follows the prefix.
unfoldable pub strip_prefix : Text → Text → Option Text
strip_prefix [] s = some s
strip_prefix (p ∷ ps) [] = none
strip_prefix (p ∷ ps) (c ∷ s) = if p == c then strip_prefix ps s else none

abbrev pub is_some {ℓ} : {A : Type ℓ} → Option A → Bool
is_some none = false
is_some (some a) = true

-- `s.includes(t)`.
unfoldable pub includes : Text → Text → Bool
unfolding strip_prefix
includes t [] = is_some (strip_prefix t [])
includes t (c ∷ s) = is_some (strip_prefix t (c ∷ s)) || includes t s

-- A natural number in decimal, `${n}`: the fuel `n + 1` is more than its digits.
unfoldable pub decimal_from : ℕ → ℕ → Text → Text
decimal_from zero n acc = acc
decimal_from (suc f) n acc =
    let digits = (48 + n % 10) ∷ acc in
    let rest = decimal_from f (n / 10) digits in if n / 10 == 0 then digits else rest

unfoldable pub decimal : ℕ → Text
unfolding decimal_from
decimal n = decimal_from (suc n) n []

abbrev pub Lacks : ℕ → Text → Type 0
Lacks c s = All (λ d. d ≢ c) s

pub split_on-Lacks : (sep : ℕ) (w : Text) → Lacks sep w → split_on sep w ≡ w ∷ []
unfolding split_on
split_on-Lacks sep [] h = refl
split_on-Lacks sep (c ∷ w) h = ground (arith, split_on-Lacks sep w h.1)

pub split_on-append :
    (sep : ℕ) (w s : Text) → Lacks sep w → split_on sep (w ++ sep ∷ s) ≡ w ∷ split_on sep s
unfolding split_on
split_on-append sep [] s h = ground arith
split_on-append sep (c ∷ w) s h = ground (arith, split_on-append sep w s h.1)

pub split_on-cons : (sep : ℕ) (s : Text) → (w : Text) × (ws : List Text) × (split_on sep s ≡ w ∷ ws)
unfolding split_on
split_on-cons sep [] = ([], [], refl)
split_on-cons sep (c ∷ s) =
    let (w, ws, e) = split_on-cons sep s in
    elim (Bool-cases (c == sep)) [
      | inl same ↦ ([], w ∷ ws, rw (same, e))
      | inr other ↦ (c ∷ w, ws, rw (other, e))
    ]

-- The parts of a text that was split hold no separator.
pub split_on-All : (sep : ℕ) (s : Text) → All (Lacks sep) (split_on sep s)
unfolding split_on
split_on-All sep [] = (tt, tt)
split_on-All sep (c ∷ s) =
    let (w, ws, e) = split_on-cons sep s in
    let ih : All (Lacks sep) (w ∷ ws) = rw e at (split_on-All sep s) in
    elim (Bool-cases (c == sep)) [
      | inl same ↦ rw (same, e) (tt, ih)
      | inr other ↦ let ne : c ≢ sep = ground (arith, other) in rw (other, e) ((ne, ih.0), ih.1)
    ]

join-push_head :
    (sep : Text) (c : ℕ) (w : Text) (ws : List Text)
    → join sep (push_head c (w ∷ ws)) ≡ c ∷ join sep (w ∷ ws)
unfolding join
join-push_head sep c w [] = refl
join-push_head sep c w (v ∷ ws) = refl

-- Joining what was split gives the text back.
pub join-split_on : (sep : ℕ) (s : Text) → join (sep ∷ []) (split_on sep s) ≡ s
unfolding join split_on
join-split_on sep [] = refl
join-split_on sep (c ∷ s) =
    let (w, ws, e) = split_on-cons sep s in
    let ih : join (sep ∷ []) (w ∷ ws) ≡ s = rw e at (join-split_on sep s) in
    elim (Bool-cases (c == sep)) [
      | inl same ↦ rw (same, e) (ground (arith, ih))
      | inr other ↦ rw (other, e) (join-push_head (sep ∷ []) c w ws ∙ ap (c ∷◌) ih)
    ]

pub strip_prefix-eq-some : (p s r : Text) → strip_prefix p s ≡ some r → s ≡ p ++ r
unfolding strip_prefix
strip_prefix-eq-some [] s r h = ground arith
strip_prefix-eq-some (a ∷ p) [] r h = cc
strip_prefix-eq-some (a ∷ p) (c ∷ s) r h = ground (arith, strip_prefix-eq-some p s r)

pub strip_prefix-append : (t s : Text) → strip_prefix t (t ++ s) ≡ some s
unfolding strip_prefix
strip_prefix-append [] s = refl
strip_prefix-append (c ∷ t) s = ground (arith, strip_prefix-append t s)

pub is_some→eq : {A : Type 0} (o : Option A) → is_some o ≡ true → (a : A) × (o ≡ some a)
is_some→eq none h = cc
is_some→eq (some a) h = (a, refl)

abbrev zeros : ℕ → Text → Text
zeros zero s = s
zeros (suc n) s = 48 ∷ zeros n s

-- `s.padStart(n, "0")`.
unfoldable pub pad_start : ℕ → Text → Text
pad_start n s = zeros (n - length s) s
