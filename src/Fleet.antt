-- ===== src/Fleet.antt =====
-- web/src/lib/fleet.ts: the figures of the fleet's cluster, summed in one pass over the agents.
pub mod Laws
pub mod Tests
use marshal_pm.Base.{
  ℕ, ◌+◌, Bool, true, false, ◌||◌, Option, none, some, List, [], ◌∷◌, Text, length, Floats,
  if◌then◌else◌,
}
use marshal_pm.Api.Types.{Proc, Agent, AgentHost}
use marshal_pm.Status.{Kind, is_errored, is_online, status_of}

pub record FleetSummary (N : Type 0) : Type 0 where
  pub agents : ℕ
  pub online : ℕ
  pub errored : ℕ
  pub running : ℕ
  pub total_procs : ℕ
  pub avg_cpu : Option N
  pub mem_used : Option ℕ
  pub mem_total : Option ℕ
  pub restarts24h : ℕ
  pub errored_name : Option Text

abbrev pub kind_of : {N : Type 0} → Proc N → Kind
kind_of p = (status_of p.state).kind

abbrev proc_errored : {N : Type 0} → Proc N → Bool
proc_errored p = is_errored (kind_of p)

abbrev proc_online : {N : Type 0} → Proc N → Bool
proc_online p = is_online (kind_of p)

-- The variables of the loops.
record Tally (N : Type 0) : Type 0 where
  online : ℕ
  errored : ℕ
  running : ℕ
  total_procs : ℕ
  restarts24h : ℕ
  cpu_sum : N
  cpu_count : ℕ
  mem_used_sum : ℕ
  mem_total_sum : ℕ
  has_host : Bool
  errored_name : Option Text

-- A name, unless one was found before.
abbrev first_name : Option Text → Bool → Text → Option Text
first_name (some n) b name = some n
first_name none true name = some name
first_name none false name = none

module _ {N : Type 0} where
  -- One round of the inner loop, with the flag `agentErrored`.
  scan_proc : Bool → Tally N → Proc N → Bool × Tally N
  scan_proc agent_errored t p = (
    agent_errored || proc_errored p,
    record t {
      errored_name = first_name t.errored_name (proc_errored p) p.name;
      running = if proc_online p then t.running + 1 else t.running;
      total_procs = t.total_procs + 1;
      restarts24h = t.restarts24h + p.restarts_24h;
    },
  )

  scan_procs : Bool → Tally N → List (Proc N) → Bool × Tally N
  scan_procs agent_errored t [] = (agent_errored, t)
  scan_procs agent_errored t (p ∷ ps) =
      let (flag, t') = scan_proc agent_errored t p in scan_procs flag t' ps

  count_agent : Bool → Bool → Tally N → Tally N
  count_agent agent_errored connected t =
      if agent_errored
      then record t { errored = t.errored + 1 }
      else if connected
      then record t { online = t.online + 1 }
      else t

module _ (F : Floats) where
  open F use {Num, of_nat, add, div}

  count_host : Option (AgentHost Num) → Tally Num → Tally Num
  count_host none t = t
  count_host (some h) t = record t {
    has_host = true;
    cpu_sum = add t.cpu_sum h.cpu_percent;
    cpu_count = t.cpu_count + 1;
    mem_used_sum = t.mem_used_sum + h.mem_used;
    mem_total_sum = t.mem_total_sum + h.mem_total;
  }

  -- One round of the outer loop.
  scan_agent : Tally Num → Agent Num → Tally Num
  scan_agent t a =
      let (agent_errored, t') = scan_procs false t a.procs in
      count_host a.host (count_agent agent_errored a.connected t')

  scan_agents : Tally Num → List (Agent Num) → Tally Num
  scan_agents t [] = t
  scan_agents t (a ∷ rest) = scan_agents (scan_agent t a) rest

  no_tally : Tally Num
  no_tally = record {
    online = 0;
    errored = 0;
    running = 0;
    total_procs = 0;
    restarts24h = 0;
    cpu_sum = of_nat 0;
    cpu_count = 0;
    mem_used_sum = 0;
    mem_total_sum = 0;
    has_host = false;
    errored_name = none;
  }

  unfoldable pub fleet_summary : List (Agent Num) → FleetSummary Num
  unfolding scan_agents scan_agent scan_procs scan_proc count_agent count_host no_tally status_of
  fleet_summary agents =
      let t = scan_agents no_tally agents in
      record {
        agents = length agents;
        online = t.online;
        errored = t.errored;
        running = t.running;
        total_procs = t.total_procs;
        restarts24h = t.restarts24h;
        avg_cpu = if t.has_host then some (div t.cpu_sum (of_nat t.cpu_count)) else none;
        mem_used = if t.has_host then some t.mem_used_sum else none;
        mem_total = if t.has_host then some t.mem_total_sum else none;
        errored_name = t.errored_name;
      }
