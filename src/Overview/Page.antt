-- ===== src/Overview/Page.antt =====
-- web/src/Overview.tsx as a whole: the buttons above, the figures, the sections of the agents with
-- their tables, and the dialogs over the page.
use marshal_pm.Base.{
  ℕ, Bool, false, Option, none, some, List, [], ◌∷◌, Text, codes, map, Floats, if◌then◌else◌,
}
use marshal_pm.Api.Types.{Agent, Proc}
use marshal_pm.Overview.{Series, fleet_cells, empty_fleet, Dialogs}
use marshal_pm.Overview.Rows.{Section, sections_from}
use marshal_pm.Ui.Ledger.{Cell, EmptyState}
use marshal_pm.Ui.Controls.{ButtonView, button_view}

unfoldable pub page_buttons : List ButtonView
unfolding button_view
page_buttons =
    button_view (some (codes "ghost")) (some (codes "sm")) none false none none (codes "+ add app")
    ∷ button_view (some (codes "ghost")) (some (codes "sm")) none false none none
        (codes "+ connect agent")
    ∷ []

-- The captions of an agent's table, which is there for an agent with processes only.
unfoldable pub captions : {N : Type 0} → List (Proc N) → List Text
captions [] = []
captions (p ∷ ps) =
    []
    ∷ codes "Process"
    ∷ codes "Status"
    ∷ codes "PID"
    ∷ codes "CPU"
    ∷ codes "MEM"
    ∷ codes "Uptime"
    ∷ codes "↻"
    ∷ codes "Trend"
    ∷ []

-- The dialogs that are open: that for an app gets the agents, the live log its agent and process.
pub record OpenDialogs (N : Type 0) : Type 0 where
  pub add : Option (List (Agent N))
  pub connect : Bool
  pub live_log : Option (Text × Text)

unfoldable pub open_dialogs : {N : Type 0} → List (Agent N) → Dialogs → OpenDialogs N
open_dialogs agents d = record {
  add = if d.show_add then some agents else none;
  connect = d.show_connect;
  live_log = d.live_log;
}

pub record OverviewPage (N : Type 0) : Type 0 where
  pub buttons : List ButtonView
  pub cells : List Cell
  pub empty : Option EmptyState
  pub sections : List (Section N)
  pub captions : List (List Text)
  pub restart_all : List (Text × Bool)
  pub dialogs : OpenDialogs N

module _ (F : Floats) where
  open F use {Num}

  unfoldable pub overview_page : ℕ → Series Num → List (Agent Num) → Dialogs → OverviewPage Num
  unfolding page_buttons fleet_cells empty_fleet sections_from captions open_dialogs
  overview_page now_ms metrics agents d = record {
    buttons = page_buttons;
    cells = fleet_cells F agents;
    empty = empty_fleet agents;
    sections = sections_from F now_ms metrics 0 agents;
    captions = map (λ a. captions a.procs) agents;
    restart_all = map (λ a. (a.name, a.connected)) agents;
    dialogs = open_dialogs agents d;
  }
