-- ===== src/LogFilter/Laws.antt =====
-- The three forms of a filter, and where a match of a substring lies.
use marshal_pm.Base.{
  strip_prefix-append, is_some→eq, text_eq_refl, All, ◌≡◌, ◌↔◌, ◌⊎◌, inl, inr, refl, ap, arith,
  Bool, true, false, Bool-cases, Option-cases, Option, none, some, [], ◌∷◌, ◌++◌, Text, text_eq,
  text_eq→eq, includes, strip_prefix, strip_prefix-eq-some,
}
use marshal_pm.LogFilter.{
  slashed, before_slash, is_line_end, match_filter, match_slashed, match_pattern, contains_folded,
}

-- `t` stands somewhere in `s`.
abbrev pub Occurs : Text → Text → Type 0
Occurs t s = (before : Text) × (after : Text) × (s ≡ before ++ (t ++ after))

includes-Occurs : (t s : Text) → includes t s ≡ true → Occurs t s
unfolding includes
includes-Occurs t [] h =
    let (r, e) = is_some→eq (strip_prefix t []) h in ([], r, strip_prefix-eq-some t [] r e)
includes-Occurs t (c ∷ s) h = elim (Option-cases (strip_prefix t (c ∷ s))) [
  | inr (r, e) ↦ ([], r, strip_prefix-eq-some t (c ∷ s) r e)
  | inl e ↦ let (b, a, q) = includes-Occurs t s (rw e at h) in (c ∷ b, a, ap (c ∷◌) q)
]

includes_here : (t a : Text) → includes t (t ++ a) ≡ true
unfolding includes
includes_here t a = go (t ++ a) (strip_prefix-append t a)
  where
    go : (s : Text) → strip_prefix t s ≡ some a → includes t s ≡ true
    go [] e = rw e
    go (c ∷ s) e = rw e

includes_later : (t b a : Text) → includes t (b ++ (t ++ a)) ≡ true
unfolding includes
includes_later t [] a = includes_here t a
includes_later t (c ∷ b) a = ground (arith, includes_later t b a)

-- The test of a substring is right in both directions.
pub includes_iff : (t s : Text) → (includes t s ≡ true) ↔ Occurs t s
includes_iff t s = (includes-Occurs t s, λ (b, a, e). rw e (includes_later t b a))

-- No character of the text ends a line.
abbrev pub OneLine : Text → Type 0
OneLine p = All (λ c. is_line_end c ≡ false) p

before_slash-eq-some : (s p : Text) → before_slash s ≡ some p → (s ≡ p ++ (47 ∷ [])) × OneLine p
unfolding before_slash
before_slash-eq-some [] p h = cc
before_slash-eq-some (c ∷ []) p h = ground arith
before_slash-eq-some (c ∷ d ∷ s) p h = elim (Option-cases (before_slash (d ∷ s))) [
  | inl e ↦ cc (rw e at h)
  | inr (q, e) ↦ ground (arith, before_slash-eq-some (d ∷ s) q e)
]

before_slash-append : (p : Text) → OneLine p → before_slash (p ++ (47 ∷ [])) ≡ some p
unfolding before_slash
before_slash-append [] h = refl
before_slash-append (c ∷ []) h = ground arith
before_slash-append (c ∷ d ∷ p) h = ground (arith, before_slash-append (d ∷ p) h.1)

-- The queries that are taken for an expression: text on one line between two slashes.
slashed_iff : (q p : Text) → (slashed q ≡ some p) ↔ ((q ≡ 47 ∷ (p ++ (47 ∷ []))) × OneLine p)
unfolding slashed
slashed_iff [] p = (λ h. cc, λ h. cc)
slashed_iff (c ∷ s) p =
    (λ h. ground (arith, before_slash-eq-some s p), λ h. ground (arith, before_slash-append p h.1))

module _ (to_lower : Text → Text) (regexp : Text → Option (Text → Bool)) where
  -- A query on one line between two slashes that is an expression matches what that matches.
  pub match_filter-regexp :
      (text p : Text) (test : Text → Bool)
      → OneLine p
      → regexp p ≡ some test
      → match_filter to_lower regexp text (47 ∷ (p ++ (47 ∷ []))) ≡ test text
  unfolding match_filter text_eq match_slashed slashed match_pattern
  match_filter-regexp text p test h e = rw (before_slash-append p h, e) refl

  -- The query is no expression: not between slashes on one line, or refused by the engine.
  abbrev pub IsPlain : Text → Type 0
  IsPlain query = (p : Text) → query ≡ 47 ∷ (p ++ (47 ∷ [])) → OneLine p → regexp p ≡ none

  contains_folded_iff :
      (text query : Text)
      → (contains_folded to_lower regexp text query ≡ true)
        ↔ Occurs (to_lower query) (to_lower text)
  unfolding contains_folded
  contains_folded_iff text query = includes_iff (to_lower query) (to_lower text)

  match_slashed_plain :
      (text query : Text)
      → IsPlain query
      → match_slashed to_lower regexp (slashed query) text query
        ≡ contains_folded to_lower regexp text query
  unfolding match_slashed match_pattern
  match_slashed_plain text query h = elim (Option-cases (slashed query)) [
    | inl e ↦ rw e
    | inr (p, e) ↦ let (q, one) = (slashed_iff query p).0 e in rw e (rw (h p q one))
  ]

  -- A query that is no expression, by its form or because the engine refuses it, matches the
  -- lines in which it occurs, both taken in lower case; the empty query matches all.
  pub match_filter_substring :
      (text query : Text)
      → IsPlain query
      → (match_filter to_lower regexp text query ≡ true)
        ↔ ((query ≡ []) ⊎ Occurs (to_lower query) (to_lower text))
  unfolding match_filter
  match_filter_substring text query h = elim (Bool-cases (text_eq query [])) [
    | inl e ↦ rw e (λ _. inl (text_eq→eq query [] e), λ _. refl)
    | inr e ↦
        rw (e, match_slashed_plain text query h)
          (
            λ m. inr ((contains_folded_iff text query).0 m),
            λ o. elim o [
              | inl q ↦ cc (rw q at e, text_eq_refl [])
              | inr occurs ↦ (contains_folded_iff text query).1 occurs
            ],
          )
  ]
