-- ===== src/Notif/Chips.antt =====
-- The chips of a rule's form: what clicking them makes of a list.
use marshal_pm.Base.{
  ℕ, ◌+◌, ◌≡◌, ◌≤◌, refl, ◌∙◌, arith, Bool, false, not, ◌&&◌, ◌||◌, inl, inr, Bool-cases, List, [],
  ◌∷◌, ◌++◌, Text, text_eq, text_eq_iff, has, select, length, if◌then◌else◌,
}
use marshal_pm.Notif.Rules.{toggle}

-- Clicks on chips, one after the other.
unfoldable pub clicks : List Text → List Text → List Text
unfolding toggle
clicks list [] = list
clicks list (v ∷ vs) = clicks (toggle list v) vs

-- Whether a chip was clicked an odd number of times.
abbrev pub odd : Text → List Text → Bool
odd v [] = false
odd v (w ∷ ws) = let rest = odd v ws in if text_eq w v then not rest else rest

-- How often a value stands in a list.
abbrev pub times : Text → List Text → ℕ
times v list = length (select (λ x. text_eq x v) list)

has-append : (v : Text) (xs ys : List Text) → has v (xs ++ ys) ≡ (has v xs || has v ys)
unfolding has
has-append v [] ys = refl
has-append v (x ∷ xs) ys = ground (arith, has-append v xs ys)

has_one : (v w : Text) → has v (w ∷ []) ≡ text_eq w v
unfolding has
has_one v w = ground arith

has-select :
    (v w : Text) (xs : List Text)
    → has v (select (λ x. not (text_eq x w)) xs) ≡ (has v xs && not (text_eq v w))
unfolding has
has-select v w [] = refl
has-select v w (x ∷ xs) =
    ground (arith, text_eq_iff x w, text_eq_iff x v, text_eq_iff v w, has-select v w xs)

times-append : (v : Text) (xs ys : List Text) → times v (xs ++ ys) ≡ times v xs + times v ys
times-append v [] ys = ground arith
times-append v (x ∷ xs) ys = ground (arith, times-append v xs ys)

times-select :
    (v w : Text) (xs : List Text) → times v (select (λ x. not (text_eq x w)) xs) ≤ times v xs
times-select v w [] = omega arith
times-select v w (x ∷ xs) = ground (arith, times-select v w xs)

times-absent : (v : Text) (xs : List Text) → has v xs ≡ false → times v xs ≡ 0
unfolding has
times-absent v [] h = refl
times-absent v (x ∷ xs) h = ground (arith, h, times-absent v xs)

has-toggle :
    (list : List Text) (v w : Text)
    → has v (toggle list w) ≡ (if text_eq w v then not (has v list) else has v list)
unfolding toggle
has-toggle list v w = elim (Bool-cases (has w list)) [
  | inl there ↦
      rw there (has-select v w list ∙ ground (arith, there, text_eq_iff v w, text_eq_iff w v))
  | inr absent ↦
      rw absent (has-append v list (w ∷ []) ∙ ground (arith, absent, text_eq_iff w v, has_one v w))
]

times-toggle : (list : List Text) (v w : Text) → times v list ≤ 1 → times v (toggle list w) ≤ 1
unfolding toggle
times-toggle list v w h = elim (Bool-cases (has w list)) [
  | inl there ↦ rw there (omega (arith, h, times-select v w list))
  | inr absent ↦ rw absent (
      ground (
        arith,
        h,
        absent,
        text_eq_iff w v,
        times-append v list (w ∷ []),
        times-absent w list absent,
      ))
]

-- Chips that are clicked from a list without duplicates on, in any order and any number of times:
-- a value is in the list after it exactly if its being in the list before differs from its chip
-- having been clicked an odd number of times, and it is in there once at most.
pub has-clicks :
    (list vs : List Text) (v : Text)
    → times v list ≤ 1
    → (has v (clicks list vs) ≡ (if odd v vs then not (has v list) else has v list))
      × (times v (clicks list vs) ≤ 1)
unfolding clicks
has-clicks list [] v h = (refl, h)
has-clicks list (w ∷ vs) v h =
    let (ih, once) = has-clicks (toggle list w) vs v (times-toggle list v w h) in
    (ground (arith, ih, has-toggle list v w), once)
