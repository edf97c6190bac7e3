-- ===== src/Detail.antt =====
-- web/src/ProcessDetail.tsx: the page of one process, with its three polls.
pub mod Polls
pub mod Cells
pub mod Page
pub mod Uptime
pub mod Tests
use marshal_pm.Base.{
  ℕ, ◌+◌, ◌-◌, Bool, true, false, not, ◌&&◌, ◌||◌, Option, none, some, List, [], ◌∷◌, ◌++◌, Text,
  codes, decimal, text_eq, is_some, strip_prefix, is_blank, join, find, length, drop, ltb, ◌==◌,
  if◌then◌else◌, Outcome, returned, threw,
}
use marshal_pm.Api.Types.{
  Source, git, command, Proc, Agent, Bucket, ProcMetrics, AgentMetrics, LogLine, LogsResponse,
  ControlResult,
}
use marshal_pm.Api.Http.{Fetch, nullish}
use marshal_pm.Api.Apps.{Action, control}

-- `proc` stands for the fields of the process that the page copies.
pub record Detail (N : Type 0) : Type 0 where
  pub proc : Option (Proc N)
  pub connected : Bool
  pub err_count : ℕ

unfoldable pub opened : {N : Type 0} → Detail N
opened = record { proc = none; connected = false; err_count = 0 }

module _ {N : Type 0} where
  unfoldable pub agent_named : Text → List (Agent N) → Option (Agent N)
  unfolding text_eq
  agent_named name agents = find (λ a. text_eq a.name name) agents

  abbrev is_connected : Option (Agent N) → Bool
  is_connected none = false
  is_connected (some a) = a.connected

  unfoldable pub proc_named : Text → Option (Agent N) → Option (Proc N)
  unfolding text_eq
  proc_named name none = none
  proc_named name (some a) = find (λ p. text_eq p.name name) a.procs

  -- The reply to the poll of the fleet, with whether it signs out; a failed one ends the tick.
  unfoldable pub fleet_done :
      (agent proc : Text) → (stopped : Bool) → Outcome (List (Agent N)) → Detail N → Detail N × Bool
  unfolding agent_named proc_named
  fleet_done agent proc true m s = (s, false)
  fleet_done agent proc false (threw e) s = (s, true)
  fleet_done agent proc false (returned agents) s = (
    record s {
      connected = is_connected (agent_named agent agents);
      proc = proc_named proc (agent_named agent agents);
    },
    false,
  )

-- `label === proc || label.startsWith(proc + "#")`.
unfoldable pub belongs : Text → Text → Bool
unfolding text_eq strip_prefix
belongs proc label = text_eq label proc || is_some (strip_prefix (proc ++ codes "#") label)

unfoldable pub count_errors : Text → List (Text × ℕ) → ℕ
unfolding belongs
count_errors proc [] = 0
count_errors proc ((label, c) ∷ rest) =
    let n = count_errors proc rest in if belongs proc label then c + n else n

unfoldable pub stats_done :
    {N : Type 0} → Text → (stopped : Bool) → Outcome (List (Text × ℕ)) → Detail N → Detail N
unfolding count_errors
stats_done proc true m s = s
stats_done proc false (threw e) s = s
stats_done proc false (returned counts) s = record s { err_count = count_errors proc counts }

abbrev first_buckets : {N : Type 0} → List (ProcMetrics N) → List (Bucket N)
first_buckets [] = []
first_buckets (p ∷ ps) = p.buckets

-- The buckets of the first process of the first agent of the reply.
abbrev pub buckets_of : {N : Type 0} → List (AgentMetrics N) → List (Bucket N)
buckets_of [] = []
buckets_of (a ∷ rest) = first_buckets a.procs

-- The lines of the log, with the variables of the poll's run.
pub record Tail : Type 0 where
  pub lines : List LogLine
  pub cursor : ℕ
  pub first : Bool
  pub stop : Bool

abbrev pub log_cap : ℕ
log_cap = 5000

-- A run of the effect, which begins with no lines.
unfoldable pub start_tail : Tail → Tail
start_tail t = record { lines = []; cursor = 0; first = true; stop = false }

unfoldable pub stop_tail : Tail → Tail
stop_tail t = record t { stop = true }

unfoldable pub tail_after : Tail → ℕ
tail_after t = if t.first then 0 else t.cursor

abbrev capped : List LogLine → List LogLine
capped next = if ltb log_cap (length next) then drop (length next - log_cap) next else next

unfoldable pub tail_done : Outcome LogsResponse → Tail → Tail
tail_done (threw e) t = t
tail_done (returned r) t = if t.stop then t else record t {
  cursor = if r.cursor == 0 then t.cursor else r.cursor;
  first = false;
  lines = if ltb 0 (length r.lines) then capped (t.lines ++ r.lines) else t.lines;
}

unfoldable pub tail_replies : List (Outcome LogsResponse) → Tail → Tail
unfolding tail_done
tail_replies [] t = t
tail_replies (m ∷ ms) t = tail_replies ms (tail_done m t)

-- What the header says of the process.
abbrev pid_part : ℕ → List Text
pid_part pid = if pid == 0 then [] else (codes "pid " ++ decimal pid) ∷ []

abbrev detail_part : Option Text → List Text
detail_part none = []
detail_part (some []) = []
detail_part (some (c ∷ t)) = (c ∷ t) ∷ []

abbrev meta_parts : {N : Type 0} → Option (Proc N) → List Text
meta_parts none = []
meta_parts (some p) = pid_part p.pid ++ detail_part p.detail

abbrev state_of : {N : Type 0} → Option (Proc N) → Text
state_of none = codes "—"
state_of (some p) = p.state

unfoldable pub header_meta : {N : Type 0} → Detail N → Text
unfolding join decimal
header_meta s = join (codes " · ") (state_of s.proc ∷ meta_parts s.proc)

abbrev is_git : Option Source → Bool
is_git none = false
is_git (some git) = true
is_git (some command) = false

unfoldable pub show_files : {N : Type 0} → Detail N → Bool
show_files s = elim s.proc [ none ↦ false | some p ↦ is_git p.source ]

-- Why the buttons of the page are disabled, and the call that they send: its end is dropped.
unfoldable pub control_reason : {N : Type 0} → Detail N → Option Text
control_reason s = if s.connected then none else some (codes "Agent offline")

unfoldable pub do_control :
    {N : Type 0}
    → Fetch N ControlResult
    → (agent proc : Text) → Action
    → Detail N
    → Detail N × Outcome ControlResult
do_control fetch agent proc action s = (s, control fetch agent proc action)
