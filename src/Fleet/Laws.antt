-- ===== src/Fleet/Laws.antt =====
-- The one pass gives the figures that their names promise, each stated over the whole fleet.
use marshal_pm.Base.{
  Option-cases, sym, ◌≤◌, ℕ, ◌+◌, ◌≡◌, refl, ap, ◌∙◌, ◌↔◌, Bool, true, false, not, ◌&&◌, ◌||◌,
  Option, none, some, List, [], ◌∷◌, ◌++◌, Text, length, select, any, find, Floats, arith,
  if◌then◌else◌, inl, inr,
}
use marshal_pm.Api.Types.{Proc, Agent}
use marshal_pm.Fleet.{
  proc_errored, proc_online, Tally, scan_proc, scan_procs, count_agent, count_host, scan_agent,
  scan_agents, no_tally, fleet_summary,
}

module _ {ℓ} {A : Type ℓ} where
  abbrev pub count : (A → Bool) → List A → ℕ
  count p xs = length (select p xs)

  abbrev pub total : (A → ℕ) → List A → ℕ
  total f [] = 0
  total f (x ∷ xs) = f x + total f xs

module _ {N : Type 0} where
  -- The processes of all agents, in order.
  abbrev pub all_procs : List (Agent N) → List (Proc N)
  all_procs [] = []
  all_procs (a ∷ rest) = a.procs ++ all_procs rest

  abbrev pub agent_errored : Agent N → Bool
  agent_errored a = any proc_errored a.procs

  abbrev pub agent_online : Agent N → Bool
  agent_online a = not (agent_errored a) && a.connected

  abbrev pub name_of : Option (Proc N) → Option Text
  name_of none = none
  name_of (some p) = some p.name

  -- The name that the loops keep: one found before, or that of the first errored process.
  abbrev or_first : Option Text → Option (Proc N) → Option Text
  or_first (some n) o = some n
  or_first none o = name_of o

  -- What the inner loop adds for the processes of one agent, and what it leaves alone.
  abbrev Added : Bool → Tally N → List (Proc N) → Bool × Tally N → Type 0
  Added flag t ps r =
      (r.0 ≡ (flag || any proc_errored ps))
      × (r.1.running ≡ t.running + count proc_online ps)
      × (r.1.total_procs ≡ t.total_procs + length ps)
      × (r.1.restarts24h ≡ t.restarts24h + total (λ p. p.restarts_24h) ps)
      × (r.1.errored_name ≡ or_first t.errored_name (find proc_errored ps))
      × (r.1.online ≡ t.online)
      × (r.1.errored ≡ t.errored)
      × (r.1.mem_used_sum ≡ t.mem_used_sum)
      × (r.1.mem_total_sum ≡ t.mem_total_sum)
      × (r.1.has_host ≡ t.has_host)

  scan_procs-Added :
      (flag : Bool) (t : Tally N) (ps : List (Proc N)) → Added flag t ps (scan_procs flag t ps)
  unfolding scan_procs scan_proc
  scan_procs-Added flag t [] = ground arith
  scan_procs-Added flag t (p ∷ ps) =
      ground (arith, scan_procs-Added (scan_proc flag t p).0 (scan_proc flag t p).1 ps)

  abbrev has_host : Agent N → Bool
  has_host a = elim a.host [ none ↦ false | some h ↦ true ]

  abbrev mem_used_of : Agent N → ℕ
  mem_used_of a = elim a.host [ none ↦ 0 | some h ↦ h.mem_used ]

  abbrev mem_total_of : Agent N → ℕ
  mem_total_of a = elim a.host [ none ↦ 0 | some h ↦ h.mem_total ]

module _ (F : Floats) where
  open F use {Num}

  -- What the outer loop adds for a list of agents.
  abbrev Summed : Tally Num → List (Agent Num) → Tally Num → Type 0
  Summed t fleet r =
      (r.online ≡ t.online + count agent_online fleet)
      × (r.errored ≡ t.errored + count agent_errored fleet)
      × (r.running ≡ t.running + total (λ a. count proc_online a.procs) fleet)
      × (r.total_procs ≡ t.total_procs + total (λ a. length a.procs) fleet)
      × (r.restarts24h ≡ t.restarts24h + total (λ a. total (λ p. p.restarts_24h) a.procs) fleet)
      × (r.mem_used_sum ≡ t.mem_used_sum + total mem_used_of fleet)
      × (r.mem_total_sum ≡ t.mem_total_sum + total mem_total_of fleet)
      × (r.has_host ≡ (t.has_host || any has_host fleet))

  scan_agent-Summed : (t : Tally Num) (a : Agent Num) → Summed t (a ∷ []) (scan_agent F t a)
  unfolding scan_agent count_agent count_host
  scan_agent-Summed t a = ground (arith, scan_procs-Added false t a.procs)

  scan_agents-Summed :
      (t : Tally Num) (fleet : List (Agent Num)) → Summed t fleet (scan_agents F t fleet)
  unfolding scan_agents
  scan_agents-Summed t [] = ground arith
  scan_agents-Summed t (a ∷ fleet) =
      ground (arith, scan_agent-Summed t a, scan_agents-Summed (scan_agent F t a) fleet)

  find-append_none :
      (ps qs : List (Proc Num))
      → find proc_errored ps ≡ none
      → find proc_errored (ps ++ qs) ≡ find proc_errored qs
  find-append_none [] qs h = refl
  find-append_none (p ∷ ps) qs h = ground (arith, find-append_none ps qs)

  find-append_some :
      (ps qs : List (Proc Num)) (p : Proc Num)
      → find proc_errored ps ≡ some p
      → find proc_errored (ps ++ qs) ≡ some p
  find-append_some [] qs p h = cc
  find-append_some (q ∷ ps) qs p h = ground (arith, find-append_some ps qs p)

  or_first-append :
      (o : Option Text) (ps qs : List (Proc Num))
      → or_first (or_first o (find proc_errored ps)) (find proc_errored qs)
        ≡ or_first o (find proc_errored (ps ++ qs))
  or_first-append (some n) ps qs = refl
  or_first-append none ps qs = elim (Option-cases (find proc_errored ps)) [
    | inl e ↦ rw (e, find-append_none ps qs e) refl
    | inr (p, e) ↦ rw (e, find-append_some ps qs p e) refl
  ]

  scan_agent-errored_name :
      (t : Tally Num) (a : Agent Num)
      → (scan_agent F t a).errored_name ≡ or_first t.errored_name (find proc_errored a.procs)
  unfolding scan_agent count_agent count_host
  scan_agent-errored_name t a = ground (arith, scan_procs-Added false t a.procs)

  scan_agents-errored_name :
      (t : Tally Num) (fleet : List (Agent Num))
      → (scan_agents F t fleet).errored_name
        ≡ or_first t.errored_name (find proc_errored (all_procs fleet))
  unfolding scan_agents
  scan_agents-errored_name t [] = ground arith
  scan_agents-errored_name t (a ∷ fleet) =
      scan_agents-errored_name (scan_agent F t a) fleet
      ∙ ap (λ o. or_first o (find proc_errored (all_procs fleet))) (scan_agent-errored_name t a)
      ∙ or_first-append t.errored_name a.procs (all_procs fleet)

  -- The counts and sums of the summary are those of the fleet: of the agents, those with an errored
  -- process and the connected ones without; of their processes, all and those that are online; the
  -- restarts; the memory of the hosts that report, or nothing if none does; and the name of the
  -- first errored process.
  pub fleet_summary_counts :
      (fleet : List (Agent Num))
      → ((fleet_summary F fleet).errored ≡ count agent_errored fleet)
        × ((fleet_summary F fleet).online ≡ count agent_online fleet)
        × ((fleet_summary F fleet).running ≡ total (λ a. count proc_online a.procs) fleet)
        × ((fleet_summary F fleet).total_procs ≡ total (λ a. length a.procs) fleet)
        × ((fleet_summary F fleet).restarts24h
            ≡ total (λ a. total (λ p. p.restarts_24h) a.procs) fleet)
        × ((fleet_summary F fleet).mem_used
            ≡ (if any has_host fleet then some (total mem_used_of fleet) else none))
        × ((fleet_summary F fleet).mem_total
            ≡ (if any has_host fleet then some (total mem_total_of fleet) else none))
        × ((fleet_summary F fleet).errored_name ≡ name_of (find proc_errored (all_procs fleet)))
  unfolding fleet_summary no_tally
  fleet_summary_counts fleet =
      ground
        (arith, scan_agents-Summed (no_tally F) fleet, scan_agents-errored_name (no_tally F) fleet)

  -- An agent counts as online or as errored, never as both.
  counted_once :
      (fleet : List (Agent Num))
      → count agent_online fleet + count agent_errored fleet ≤ length fleet
  counted_once [] = omega arith
  counted_once (a ∷ fleet) = ground (arith, counted_once fleet)

  find_of_any :
      (ps qs : List (Proc Num))
      → find proc_errored (ps ++ qs) ≡ none
      → (any proc_errored ps ≡ false) × (find proc_errored qs ≡ none)
  find_of_any [] qs h = (refl, h)
  find_of_any (p ∷ ps) qs h = ground (arith, find_of_any ps qs)

  any_of_find :
      (ps qs : List (Proc Num))
      → any proc_errored ps ≡ false
      → find proc_errored qs ≡ none
      → find proc_errored (ps ++ qs) ≡ none
  any_of_find [] qs h k = k
  any_of_find (p ∷ ps) qs h k = ground (arith, any_of_find ps qs)

  none_errored :
      (fleet : List (Agent Num))
      → (find proc_errored (all_procs fleet) ≡ none) ↔ (count agent_errored fleet ≡ 0)
  none_errored [] = (λ _. refl, λ _. refl)
  none_errored (a ∷ fleet) = (
    λ h. ground (arith, find_of_any a.procs (all_procs fleet) h, (none_errored fleet).0),
    λ h.
        any_of_find a.procs (all_procs fleet) (ground arith)
          ((none_errored fleet).1 (ground arith)),
  )

  name_of-eq-none : (o : Option (Proc Num)) → name_of o ≡ none → o ≡ none
  name_of-eq-none none h = refl
  name_of-eq-none (some p) h = cc

  agents_lem : (fleet : List (Agent Num)) → (fleet_summary F fleet).agents ≡ length fleet
  unfolding fleet_summary
  agents_lem fleet = refl

  -- No agent is counted twice, and a name of an errored process is shown exactly when an agent is
  -- counted as errored.
  pub fleet_summary_coherent :
      (fleet : List (Agent Num))
      → ((fleet_summary F fleet).online + (fleet_summary F fleet).errored
          ≤ (fleet_summary F fleet).agents)
        × (((fleet_summary F fleet).errored_name ≡ none) ↔ ((fleet_summary F fleet).errored ≡ 0))
  fleet_summary_coherent fleet =
      let c = fleet_summary_counts fleet in
      (
        omega (arith, counted_once fleet, agents_lem fleet),
        (
          λ h. c.0 ∙ (none_errored fleet).0 (name_of-eq-none _ (sym c.7 ∙ h)),
          λ h. c.7 ∙ ap name_of ((none_errored fleet).1 (sym c.0 ∙ h)),
        ),
      )
