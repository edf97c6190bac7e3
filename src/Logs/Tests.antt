-- ===== src/Logs/Tests.antt =====
-- The second agent of the fleet is chosen while a process of the first is selected.
use marshal_pm.Base.{ℕ, ◌≡◌, ◌≢◌, refl, true, false, some, [], ◌∷◌, codes, any, text_eq}
use marshal_pm.Api.Types.{Proc, Agent}
use marshal_pm.Logs.{Logs, on_selection, agent_named}
use marshal_pm.Logs.Selection.{Fits, on_selection-Fits}
use marshal_pm.Samples.{fleet, agent, proc}

abbrev page : Logs ℕ
page = record {
  fleet = fleet;
  loading = false;
  selected_agent = codes "a2";
  selected_proc = codes "web";
}

abbrev second : Agent ℕ
second =
    agent (codes "a2") true
      (proc (codes "job") (codes "errored") ∷ proc (codes "api") (codes "running") ∷ [])

second_named : agent_named (codes "a2") fleet ≡ some second
unfolding agent_named
second_named = refl

on_selection-Fits_example :
    Fits (on_selection page).selected_proc second.procs
    × ((on_selection page).selected_agent ≡ codes "a2")
    × (codes "web" ≢ []
        → any (λ (p : Proc ℕ). text_eq p.name (codes "web")) second.procs ≡ true
        → (on_selection page).selected_proc ≡ codes "web")
on_selection-Fits_example = on_selection-Fits page second (λ e. cc) second_named
