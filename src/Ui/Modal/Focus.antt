-- ===== src/Ui/Modal/Focus.antt =====
-- Tab goes round the elements of an open dialog.
use marshal_pm.Base.{
  ℕ, zero, suc, ◌-◌, ◌≡◌, ◌≢◌, sym, ap, ◌∙◌, inl, inr, refl, arith, Bool, true, false, some, List,
  [], ◌∷◌, ◌==◌, Bool-cases, length, get_elem?, if◌then◌else◌, All,
}
use marshal_pm.Ui.Modal.{KeyEffect, closed, passed, prevented, moved, last_of, on_tab}

-- Where the focus is after the key, if `browser` is where the browser moves it by itself.
abbrev pub focus_after : KeyEffect → ℕ → ℕ → ℕ
focus_after (moved x) active browser = x
focus_after passed active browser = browser
focus_after prevented active browser = active
focus_after closed active browser = active

-- The places of a ring of `n`: the one before, with Shift, or the one behind.
abbrev pub neighbour : (shift : Bool) (n i : ℕ) → ℕ
neighbour true n zero = n - 1
neighbour true n (suc i) = i
neighbour false n i = if suc i == n then 0 else suc i

-- The key moves the focus from this place round an end of the list.
abbrev pub wraps : (shift : Bool) (n i : ℕ) → Bool
wraps true n zero = true
wraps true n (suc i) = false
wraps false n i = suc i == n

abbrev pub Differ : List ℕ → Type 0
Differ [] = Unit
Differ (x ∷ xs) = All (λ y. y ≢ x) xs × Differ xs

get_elem?-last_of : (x : ℕ) (xs : List ℕ) → get_elem? (x ∷ xs) (length xs) ≡ some (last_of x xs)
get_elem?-last_of x [] = refl
get_elem?-last_of x (y ∷ ys) = get_elem?-last_of y ys

get_elem?-ne :
    (x : ℕ) (xs : List ℕ) (i : ℕ) {a : ℕ} → All (λ y. y ≢ x) xs → get_elem? xs i ≡ some a → a ≢ x
get_elem?-ne x [] i h e = cc
get_elem?-ne x (y ∷ ys) zero h e = ground arith
get_elem?-ne x (y ∷ ys) (suc i) h e = get_elem?-ne x ys i h.1 e

get_elem?-inj :
    (xs : List ℕ) (i j : ℕ) {a : ℕ}
    → Differ xs
    → get_elem? xs i ≡ some a
    → get_elem? xs j ≡ some a
    → i ≡ j
get_elem?-inj [] i j d p q = cc
get_elem?-inj (x ∷ xs) zero zero d p q = refl
get_elem?-inj (x ∷ xs) zero (suc j) d p q =
    let ne = get_elem?-ne x xs j d.0 q in absurd (ground arith)
get_elem?-inj (x ∷ xs) (suc i) zero d p q =
    let ne = get_elem?-ne x xs i d.0 p in absurd (ground arith)
get_elem?-inj (x ∷ xs) (suc i) (suc j) d p q = ap suc (get_elem?-inj xs i j d.1 p q)

-- Tab on an element of the dialog moves the focus to the element behind it, and from the last to
-- the first; Shift+Tab moves it to the one before, and from the first to the last. The elements
-- are distinct, and the browser, where the dialog leaves the key to it, moves the focus to the
-- neighbour in document order.
pub on_tab-ring :
    (shift : Bool) (focusable : List ℕ) (i active browser : ℕ)
    → Differ focusable
    → get_elem? focusable i ≡ some active
    → (wraps shift (length focusable) i ≡ false
        → get_elem? focusable (neighbour shift (length focusable) i) ≡ some browser)
    → get_elem? focusable (neighbour shift (length focusable) i)
      ≡ some (focus_after (on_tab shift focusable active) active browser)
unfolding on_tab
on_tab-ring shift [] i active browser d at_i k = cc
on_tab-ring true (first ∷ rest) zero active browser d at_i k =
    let e : first ≡ active = ground arith in
    let same : (active == first) ≡ true = ground arith in
    let q : suc (length rest) - 1 ≡ length rest = omega arith in
    rw same (ap (get_elem? (first ∷ rest)) q ∙ get_elem?-last_of first rest)
on_tab-ring true (first ∷ rest) (suc i) active browser d at_i k =
    let ne = get_elem?-ne first rest i d.0 at_i in
    let other : (active == first) ≡ false = ground arith in rw other (k refl)
on_tab-ring false (first ∷ rest) i active browser d at_i k = elim (Bool-cases (i == length rest)) [
  | inl last ↦
      let q : i ≡ length rest = ground arith in
      let at_end : some active ≡ some (last_of first rest) =
        sym at_i ∙ ap (get_elem? (first ∷ rest)) q ∙ get_elem?-last_of first rest in
      let same : (active == last_of first rest) ≡ true = ground arith in
      let around : (suc i == suc (length rest)) ≡ true = ground arith in rw (same, around) refl
  | inr inner ↦
      let ne : active ≢ last_of first rest = λ e.
        let q =
          get_elem?-inj (first ∷ rest) i (length rest) d at_i
            (get_elem?-last_of first rest ∙ ap some (sym e)) in
        absurd (ground arith) in
      let other : (active == last_of first rest) ≡ false = ground arith in
      let inside : (suc i == suc (length rest)) ≡ false = ground arith in rw other (k inside)
]
