-- ===== src/Logs/Selection.antt =====
-- What is selected after the fleet was loaded.
use mathlib.Core.Path.{subst}
use marshal_pm.Base.{
  sym, ◌≡◌, ◌≢◌, ◌⊎◌, inl, inr, refl, arith, true, false, some, List, [], ◌∷◌, Text, is_blank,
  text_eq, text_eq_iff, any, ◌∙◌, ap,
}
use marshal_pm.Api.Types.{Proc, Agent}
use marshal_pm.Logs.{Logs, agent_named, choose_proc, on_selection}

not_blank : (t : Text) → t ≢ [] → is_blank t ≡ false
not_blank [] h = absurd (h refl)
not_blank (c ∷ t) h = refl

module _ {N : Type 0} where
  -- The name is empty, and there is no process, or it names one of the processes.
  abbrev pub Fits : Text → List (Proc N) → Type 0
  Fits name ps = ((ps ≡ []) × (name ≡ [])) ⊎ (any (λ (p : Proc N). text_eq p.name name) ps ≡ true)

  choose_proc-Fits : (prev : Text) (ps : List (Proc N)) → Fits (choose_proc prev ps) ps
  unfolding choose_proc
  choose_proc-Fits prev [] = inl (refl, ground arith)
  choose_proc-Fits prev (p ∷ ps) = inr (ground (arith, text_eq_iff p.name p.name))

  choose_proc_keeps :
      (prev : Text) (ps : List (Proc N))
      → prev ≢ []
      → any (λ (p : Proc N). text_eq p.name prev) ps ≡ true
      → choose_proc prev ps ≡ prev
  unfolding choose_proc
  choose_proc_keeps prev ps h k = rw (not_blank prev h, k) refl

  -- Once the effect ran for an agent of the fleet, the selected process is one of its processes, or
  -- none where it has none; a selected process that the agent has stays selected.
  pub on_selection-Fits :
      (s : Logs N) (a : Agent N)
      → s.selected_agent ≢ []
      → agent_named s.selected_agent s.fleet ≡ some a
      → Fits (on_selection s).selected_proc a.procs
        × ((on_selection s).selected_agent ≡ s.selected_agent)
        × (s.selected_proc ≢ []
            → any (λ (p : Proc N). text_eq p.name s.selected_proc) a.procs ≡ true
            → (on_selection s).selected_proc ≡ s.selected_proc)
  unfolding on_selection
  on_selection-Fits s a h k =
      let q : on_selection s ≡ record s { selected_proc = choose_proc s.selected_proc a.procs } =
        rw (not_blank s.selected_agent h, k) refl in
      (
        subst (λ (r : Logs N). Fits r.selected_proc a.procs) (sym q)
            (choose_proc-Fits s.selected_proc a.procs),
        ap (λ (r : Logs N). r.selected_agent) q,
        λ given found.
            ap (λ (r : Logs N). r.selected_proc) q
            ∙ choose_proc_keeps s.selected_proc a.procs given found,
      )
