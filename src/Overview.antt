-- ===== src/Overview.antt =====
-- web/src/Overview.tsx: the page of the fleet. Its poll of the fleet is `fleet_tick` of the session;
-- here are the series of its metrics, its figures, its sections and rows, and its dialogs.
pub mod Rows
pub mod Agreement
pub mod Series
pub mod Page
pub mod Tests
use marshal_pm.Base.{
  ℕ, zero, suc, ◌+◌, ◌-◌, ◌/◌, Bool, true, false, not, ◌&&◌, ◌||◌, Option, none, some, List, [],
  ◌∷◌, ◌++◌, Text, codes, decimal, pad_start, is_blank, select, any, map, length, join, assign,
  lookup, Floats, ltb, ◌==◌, if◌then◌else◌, Outcome, returned, threw,
}
use marshal_pm.Api.Types.{Proc, Agent, ProcMetrics, AgentMetrics}
use marshal_pm.Fleet.{FleetSummary, fleet_summary}
use marshal_pm.Format.{dash, relative_time, format_bytes}
use marshal_pm.Status.{is_errored, status_of}
use marshal_pm.Ui.Ledger.{Cell, filled_in, SectionHeader, EmptyState}

-- The series of one process.
pub record Trend (N : Type 0) : Type 0 where
  pub cpu : List N
  pub mem : List N

abbrev pub Series : Type 0 → Type 0
Series N = List (Text × List (Text × Trend N))

module _ {N : Type 0} where
  abbrev pub trend_of : ProcMetrics N → Trend N
  trend_of p = record { cpu = map (λ b. b.cpu_avg) p.buckets; mem = map (λ b. b.mem_avg) p.buckets }

  -- The inner loop.
  unfoldable pub proc_series : List (ProcMetrics N) → List (Text × Trend N) → List (Text × Trend N)
  unfolding assign
  proc_series [] m = m
  proc_series (p ∷ ps) m = proc_series ps (assign p.name (trend_of p) m)

  -- The outer loop: `next[a.agent] = {}`, and then its processes.
  unfoldable pub agent_series : List (AgentMetrics N) → Series N → Series N
  unfolding proc_series assign
  agent_series [] next = next
  agent_series (a ∷ rest) next = agent_series rest (assign a.agent (proc_series a.procs []) next)

  -- The reply to the poll of the metrics; `stopped` where the page was left meanwhile.
  unfoldable pub metrics_done :
      (stopped : Bool) → Outcome (List (AgentMetrics N)) → Series N → Series N
  unfolding agent_series
  metrics_done true m metrics = metrics
  metrics_done false (threw e) metrics = metrics
  metrics_done false (returned agents) metrics = agent_series agents []

  abbrev cpu_of : Option (Trend N) → List N
  cpu_of none = []
  cpu_of (some t) = t.cpu

  abbrev trend_in : Text → Option (List (Text × Trend N)) → Option (Trend N)
  trend_in proc none = none
  trend_in proc (some m) = lookup proc m

  -- `metrics[a.name]?.[proc.name]?.cpu ?? []`.
  unfoldable pub cpu_series : (agent proc : Text) → Series N → List N
  unfolding lookup
  cpu_series agent proc metrics = cpu_of (trend_in proc (lookup agent metrics))

  abbrev pub flat_procs : List (Agent N) → List (Proc N)
  flat_procs [] = []
  flat_procs (a ∷ rest) = a.procs ++ flat_procs rest

  unfoldable pub procs_with_restarts : List (Agent N) → ℕ
  procs_with_restarts agents = length (select (λ p. ltb 0 p.restarts_24h) (flat_procs agents))

abbrev dash_or : Option Text → Text
dash_or none = dash
dash_or (some s) = s

abbrev size_text : Option ℕ → Option Text
size_text none = none
size_text (some n) = some (format_bytes n)

module _ (F : Floats) where
  open F use {Num, round, to_fixed, show}

  abbrev cpu_text : Option Num → Option Text
  cpu_text none = none
  cpu_text (some x) = some (show (round x))

  -- The six figures of the fleet.
  unfoldable pub fleet_cells : List (Agent Num) → List Cell
  unfolding fleet_summary procs_with_restarts decimal format_bytes
  fleet_cells agents =
      let fs = fleet_summary F agents in
      let n = procs_with_restarts agents in
      (record {
        label = codes "Agents";
        value = decimal fs.agents;
        unit = none;
        sub =
            some (
              decimal fs.online
              ++ (codes " online · " ++ (decimal fs.errored ++ codes " errored")));
        color = none;
      })
      ∷ (record {
        label = codes "Running";
        value = decimal fs.running;
        unit = none;
        sub = some (codes "of " ++ (decimal fs.total_procs ++ codes " processes"));
        color = none;
      })
      ∷ (record {
        label = codes "Errored";
        value = decimal fs.errored;
        unit = none;
        sub = some (elim fs.errored_name [ none ↦ codes "none" | some name ↦ name ]);
        color = some (codes "rose");
      })
      ∷ (record {
        label = codes "Avg CPU";
        value = dash_or (cpu_text fs.avg_cpu);
        unit = elim fs.avg_cpu [ none ↦ none | some x ↦ some (codes "%") ];
        sub = some (codes "across fleet");
        color = some (codes "teal");
      })
      ∷ (record {
        label = codes "Total Mem";
        value = dash_or (size_text fs.mem_used);
        unit = none;
        sub = some (elim fs.mem_total [ none ↦ [] | some n ↦ codes "of " ++ format_bytes n ]);
        color = some (codes "indigo");
      })
      ∷ (record {
        label = codes "Restarts 24h";
        value = decimal fs.restarts24h;
        unit = none;
        sub = some (decimal n ++ (codes " proc" ++ (if n == 1 then [] else codes "s")));
        color = some (codes "amber");
      })
      ∷ []

-- What stands in the place of the sections.
unfoldable pub empty_fleet : {N : Type 0} → List (Agent N) → Option EmptyState
empty_fleet [] = some (record {
  message = codes "No agents connected.";
  action = some (codes "Use “+ connect agent” above to enroll your first agent.");
})
empty_fleet (a ∷ agents) = none

-- The dialogs of the page.
pub record Dialogs : Type 0 where
  pub show_add : Bool
  pub show_connect : Bool
  pub live_log : Option (Text × Text)

unfoldable pub no_dialogs : Dialogs
no_dialogs = record { show_add = false; show_connect = false; live_log = none }

unfoldable pub open_add : Dialogs → Dialogs
open_add d = record d { show_add = true }

unfoldable pub close_add : Dialogs → Dialogs
close_add d = record d { show_add = false }

unfoldable pub open_connect : Dialogs → Dialogs
open_connect d = record d { show_connect = true }

unfoldable pub close_connect : Dialogs → Dialogs
close_connect d = record d { show_connect = false }

unfoldable pub open_live : (agent proc : Text) → Dialogs → Dialogs
open_live agent proc d = record d { live_log = some (agent, proc) }

unfoldable pub close_live : Dialogs → Dialogs
close_live d = record d { live_log = none }
