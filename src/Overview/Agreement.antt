-- ===== src/Overview/Agreement.antt =====
-- The sections of the page agree with its figures.
use marshal_pm.Base.{
  ℕ, suc, ◌≡◌, refl, ap, sym, ◌∙◌, Bool, true, false, inl, inr, Bool-cases, Option, none, some,
  List, [], ◌∷◌, ◌++◌, Text, codes, text_eq, any, length, Floats, if◌then◌else◌,
}
use marshal_pm.Api.Types.{Proc, Agent}
use marshal_pm.Fleet.{fleet_summary}
use marshal_pm.Fleet.Laws.{count, total, agent_errored, fleet_summary_counts}
use marshal_pm.Overview.{Series}
use marshal_pm.Overview.Rows.{
  Section, proc_failed, agent_glyph, rows_from, section_view, sections_from,
}

abbrev is_error_glyph : Option Text → Bool
is_error_glyph none = false
is_error_glyph (some g) = text_eq g (codes "glyph g-er")

-- The section's glyph is that of an error.
abbrev pub shows_error : {N : Type 0} → Section N → Bool
shows_error s = is_error_glyph s.header.glyph

count-cons :
    {A B : Type 0} (p : A → Bool) (q : B → Bool) (x : A) (y : B) (xs : List A) (ys : List B)
    → p x ≡ q y
    → count p xs ≡ count q ys
    → count p (x ∷ xs) ≡ count q (y ∷ ys)
count-cons p q x y xs ys h k = elim (Bool-cases (q y)) [
  | inl on ↦ let e : p x ≡ true = h ∙ on in rw (on, e) (ap suc k)
  | inr off ↦ let e : p x ≡ false = h ∙ off in rw (off, e) k
]

module _ (F : Floats) where
  open F use {Num}

  length-rows_from :
      (now_ms : ℕ) (metrics : Series Num) (agent : Text) (i : ℕ) (ps : List (Proc Num))
      → length (rows_from F now_ms metrics agent i ps) ≡ length ps
  unfolding rows_from
  length-rows_from now_ms metrics agent i [] = refl
  length-rows_from now_ms metrics agent i (p ∷ ps) =
      ap suc (length-rows_from now_ms metrics agent (suc i) ps)

  glyph_lem :
      (b : Bool)
      → text_eq (codes "glyph " ++ (if b then codes "g-er" else codes "g-on")) (codes "glyph g-er")
        ≡ b
  unfolding text_eq
  glyph_lem true = refl
  glyph_lem false = refl

  shows_error-section_view :
      (now_ms : ℕ) (metrics : Series Num) (i : ℕ) (a : Agent Num)
      → shows_error (section_view F now_ms metrics i a) ≡ agent_errored a
  unfolding section_view agent_glyph
  shows_error-section_view now_ms metrics i a = glyph_lem (any proc_failed a.procs)

  rows-section_view :
      (now_ms : ℕ) (metrics : Series Num) (i : ℕ) (a : Agent Num)
      → length (section_view F now_ms metrics i a).rows ≡ length a.procs
  unfolding section_view
  rows-section_view now_ms metrics i a = length-rows_from now_ms metrics a.name 0 a.procs

  sections_from-count :
      (now_ms : ℕ) (metrics : Series Num) (i : ℕ) (fleet : List (Agent Num))
      → let sections = sections_from F now_ms metrics i fleet in
        (length sections ≡ length fleet)
        × (total (λ s. length s.rows) sections ≡ total (λ a. length a.procs) fleet)
        × (count shows_error sections ≡ count agent_errored fleet)
  unfolding sections_from
  sections_from-count now_ms metrics i [] = (refl, refl, refl)
  sections_from-count now_ms metrics i (a ∷ fleet) =
      let (n, rows, errors) = sections_from-count now_ms metrics (suc i) fleet in
      (
        ap suc n,
        rw (rows-section_view now_ms metrics i a, rows) refl,
        count-cons shows_error agent_errored (section_view F now_ms metrics i a) a
            (sections_from F now_ms metrics (suc i) fleet) fleet
            (shows_error-section_view now_ms metrics i a) errors,
      )

  -- The page has as many sections as its first figure says there are agents, as many rows in all as
  -- the figure of the running ones says there are processes, and as many sections are marked with an
  -- error as its figure of the errored agents says.
  pub sections_from-fleet_summary :
      (now_ms : ℕ) (metrics : Series Num) (fleet : List (Agent Num))
      → let sections = sections_from F now_ms metrics 0 fleet in
        let fs = fleet_summary F fleet in
        (length sections ≡ fs.agents)
        × (total (λ s. length s.rows) sections ≡ fs.total_procs)
        × (count shows_error sections ≡ fs.errored)
  unfolding fleet_summary
  sections_from-fleet_summary now_ms metrics fleet =
      let (n, rows, errors) = sections_from-count now_ms metrics 0 fleet in
      let (errored, _, _, procs, _, _, _, _) = fleet_summary_counts F fleet in
      (n, rows ∙ sym procs, errors ∙ sym errored)
