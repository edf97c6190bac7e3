-- ===== src/Logs.antt =====
-- web/src/Logs.tsx: the agent and the process whose logs are shown.
pub mod Selection
pub mod View
pub mod Tests
use marshal_pm.Base.{
  Bool, true, false, not, ◌&&◌, Option, none, some, List, [], ◌∷◌, ◌++◌, Text, codes, is_blank,
  or_else, text_eq, any, find, if◌then◌else◌, Outcome, returned, threw,
}
use marshal_pm.Api.Types.{Proc, Agent}
use marshal_pm.Api.Http.{nullish}

pub record Logs (N : Type 0) : Type 0 where
  pub fleet : List (Agent N)
  pub loading : Bool
  pub selected_agent : Text
  pub selected_proc : Text

unfoldable pub opened : {N : Type 0} → Option Text → Option Text → Logs N
opened agent proc = record {
  fleet = [];
  loading = true;
  selected_agent = nullish agent [];
  selected_proc = nullish proc [];
}

module _ {N : Type 0} where
  abbrev first_agent : List (Agent N) → Text
  first_agent [] = []
  first_agent (a ∷ rest) = a.name

  abbrev connected_or_first : Option (Agent N) → List (Agent N) → Text
  connected_or_first none agents = first_agent agents
  connected_or_first (some a) agents = a.name

  -- The choice where there is none yet.
  unfoldable pub default_agent : List (Agent N) → Text
  default_agent agents = connected_or_first (find (λ a. a.connected) agents) agents

  -- A poll of the fleet; `stopped` where the page was left meanwhile.
  unfoldable pub load_done : (stopped : Bool) → Outcome (List (Agent N)) → Logs N → Logs N
  unfolding default_agent
  load_done true m s = s
  load_done false (threw e) s = record s { loading = false }
  load_done false (returned agents) s = record s {
    fleet = agents;
    loading = false;
    selected_agent = if is_blank s.selected_agent then default_agent agents else s.selected_agent;
  }

  unfoldable pub agent_named : Text → List (Agent N) → Option (Agent N)
  unfolding text_eq
  agent_named name agents = find (λ a. text_eq a.name name) agents

  abbrev first_proc : List (Proc N) → Text
  first_proc [] = []
  first_proc (p ∷ rest) = p.name

  -- The choice among an agent's processes: the one before if the agent has it, or its first.
  unfoldable pub choose_proc : Text → List (Proc N) → Text
  unfolding text_eq
  choose_proc prev procs =
      if is_blank prev
      then first_proc procs
      else if any (λ p. text_eq p.name prev) procs
      then prev
      else first_proc procs

  abbrev choose_from : Option (Agent N) → Logs N → Logs N
  choose_from none s = s
  choose_from (some a) s = record s { selected_proc = choose_proc s.selected_proc a.procs }

  -- The effect on the agent and the fleet.
  unfoldable pub on_selection : Logs N → Logs N
  unfolding choose_proc agent_named
  on_selection s =
      if is_blank s.selected_agent then s else choose_from (agent_named s.selected_agent s.fleet) s

  -- The choice of an agent, and the effect that follows.
  unfoldable pub select_agent : Text → Logs N → Logs N
  select_agent name s = record s { selected_agent = name; selected_proc = [] }

  abbrev procs_of : Option (Agent N) → List (Proc N)
  procs_of none = []
  procs_of (some a) = a.procs

  unfoldable pub procs : Logs N → List (Proc N)
  unfolding agent_named
  procs s = procs_of (agent_named s.selected_agent s.fleet)

  unfoldable pub title : Logs N → Text
  title s =
      if not (is_blank s.selected_agent) && not (is_blank s.selected_proc)
      then s.selected_agent ++ (codes " / " ++ s.selected_proc)
      else or_else s.selected_agent (codes "—")
