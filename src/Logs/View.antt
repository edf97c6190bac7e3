-- ===== src/Logs/View.antt =====
-- What web/src/Logs.tsx shows: the choices of an agent and of a process, and the panel below them.
use marshal_pm.Base.{
  Bool, true, false, not, ◌&&◌, Option, none, some, List, [], ◌∷◌, ◌++◌, Text, codes, is_blank, map,
  if◌then◌else◌,
}
use marshal_pm.Api.Types.{Proc, Agent}
use marshal_pm.Logs.{Logs, procs, title}

-- A list to choose from: the value, its options with their texts, whether it is disabled, and its
-- title.
pub record Select : Type 0 where
  pub value : Text
  pub options : List (Text × Text)
  pub disabled : Bool
  pub title : Option Text

-- The log of a process, or the line that stands in its place.
pub data Panel : Type 0 where
  log_panel : (agent proc : Text) → Panel
  hint : Text → Panel

-- The page: a line alone, or what follows its name, its two choices, and the panel.
pub data LogsView : Type 0 where
  alone : Text → LogsView
  page : Option Text → (agents processes : Select) → Panel → LogsView

module _ {N : Type 0} where
  unfoldable pub agent_select : Logs N → Select
  agent_select s = record {
    value = s.selected_agent;
    options = map (λ a. (a.name, a.name ++ (if a.connected then [] else codes " (off)"))) s.fleet;
    disabled = false;
    title = none;
  }

  abbrev pub proc_select_of : Text → List (Proc N) → Select
  proc_select_of value [] = record {
    value = value;
    options = ([], codes "—") ∷ [];
    disabled = true;
    title = some (codes "No processes for this agent");
  }
  proc_select_of value (p ∷ ps) = record {
    value = value;
    options = map (λ q. (q.name, q.name)) (p ∷ ps);
    disabled = false;
    title = none;
  }

  unfoldable pub proc_select : Logs N → Select
  unfolding procs
  proc_select s = proc_select_of s.selected_proc (procs s)

  unfoldable pub panel : Logs N → Panel
  panel s =
      if not (is_blank s.selected_agent) && not (is_blank s.selected_proc)
      then log_panel s.selected_agent s.selected_proc
      else hint (codes "Select an agent and process to view logs.")

  abbrev pub loaded_view : List (Agent N) → Logs N → LogsView
  loaded_view [] s = alone (codes "No agents connected.")
  loaded_view (a ∷ rest) s =
      page (if is_blank (title s) then none else some (title s)) (agent_select s) (proc_select s)
        (panel s)

  unfoldable pub logs_page_view : Logs N → LogsView
  unfolding agent_select proc_select panel title
  logs_page_view s = if s.loading then alone (codes "Loading…") else loaded_view s.fleet s
