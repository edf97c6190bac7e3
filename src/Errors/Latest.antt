-- ===== src/Errors/Latest.antt =====
-- The latest error, which the page names.
use marshal_pm.Base.{
  ◌≡◌, ◌∙◌, ap, ◌≤◌, ◌<◌, ◌⊎◌, inl, inr, refl, arith, none, some, List, [], ◌∷◌, ◌++◌, ltb, All,
  Bool-cases,
}
use marshal_pm.Api.Types.{ErrSignature, ErrorsResponse}
use marshal_pm.Errors.{Errors, latest_from, most_recent}

-- The first of the signatures with the latest error: those before it are older, those behind it no
-- newer.
abbrev pub IsLatest : List ErrSignature → ErrSignature → Type 0
IsLatest sigs s =
    (before : List ErrSignature) × (after : List ErrSignature) × (sigs ≡ before ++ s ∷ after)
    × All (λ (r : ErrSignature). r.last_unix < s.last_unix) before
    × All (λ (r : ErrSignature). r.last_unix ≤ s.last_unix) after

latest_from-IsLatest :
    (best : ErrSignature) (sigs : List ErrSignature)
    → (s : ErrSignature) × (latest_from (some best) sigs ≡ some s)
      × (((s ≡ best) × All (λ (r : ErrSignature). r.last_unix ≤ best.last_unix) sigs)
          ⊎ ((best.last_unix < s.last_unix) × IsLatest sigs s))
unfolding latest_from
latest_from-IsLatest best [] = (best, refl, inl (refl, tt))
latest_from-IsLatest best (x ∷ sigs) = elim (Bool-cases (ltb best.last_unix x.last_unix)) [
  | inl newer ↦
      let (s, e, c) = latest_from-IsLatest x sigs in
      rw newer (elim c [
        | inl (p, all) ↦ (x, e ∙ ap some p, inr (ground arith, ([], sigs, refl, tt, all)))
        | inr (lt, (before, after, q, b, a)) ↦
            (s, e, inr (ground arith, (x ∷ before, after, ap (x ∷◌) q, (lt, b), a)))
      ])
  | inr older ↦
      let (s, e, c) = latest_from-IsLatest best sigs in
      rw older (elim c [
        | inl (p, all) ↦ (s, e, inl (p, (ground arith, all)))
        | inr (lt, (before, after, q, b, a)) ↦
            (s, e, inr (lt, (x ∷ before, after, ap (x ∷◌) q, (ground arith, b), a)))
      ])
]

first-IsLatest :
    (sigs : List ErrSignature)
    → (sigs ≡ []) ⊎ ((sig : ErrSignature) × (latest_from none sigs ≡ some sig) × IsLatest sigs sig)
unfolding latest_from
first-IsLatest [] = inl refl
first-IsLatest (x ∷ sigs) =
    let (s, e, c) = latest_from-IsLatest x sigs in
    elim c [
      | inl (p, all) ↦ inr (x, e ∙ ap some p, ([], sigs, refl, tt, all))
      | inr (lt, (before, after, q, b, a)) ↦
          inr (s, e, (x ∷ before, after, ap (x ∷◌) q, (lt, b), a))
    ]

-- Of a response that was loaded, the error that the page names is the first of the latest, unless
-- the response has none.
pub most_recent-IsLatest :
    (s : Errors) (d : ErrorsResponse)
    → s.response ≡ some d
    → (d.signatures ≡ [])
      ⊎ ((sig : ErrSignature) × (most_recent s ≡ some sig) × IsLatest d.signatures sig)
unfolding most_recent latest_from
most_recent-IsLatest s d h = rw h (first-IsLatest d.signatures)
