-- ===== src/Overview/Rows.antt =====
-- The sections and rows of web/src/Overview.tsx. Times are whole milliseconds, and a process that
-- runs began after 1970; a size in bytes is divided by a power of 2, which a double does exactly.
use marshal_pm.Base.{
  ℕ, suc, ◌-◌, ◌/◌, Bool, Option, none, some, List, [], ◌∷◌, ◌++◌, Text, codes, decimal, pad_start,
  any, length, join, Floats, ltb, ◌==◌, if◌then◌else◌, Outcome,
}
use marshal_pm.Api.Types.{Source, command, git, Proc, Agent, ControlResult}
use marshal_pm.Api.Http.{Fetch}
use marshal_pm.Api.Apps.{Action, restart, reload, stop, control}
use marshal_pm.Format.{dash, relative_time, fixed1, tenths_div, mib}
use marshal_pm.Router.{proc_href}
use marshal_pm.Status.{is_errored, status_of, status_glyph}
use marshal_pm.Ui.Ledger.{QuickAction, Target, Ran, SectionHeader, filled_in, click_row}
use marshal_pm.Overview.{Series, cpu_series, Dialogs, open_live}

-- A figure of a row: a dash, or a text with its class and its unit.
pub data Figure : Type 0 where
  dim_dash : Figure
  figure : (class text : Text) → (unit : Option Text) → Figure

abbrev pub row_number : ℕ → Text
row_number i = pad_start 2 (decimal (suc i))

abbrev pub source_text : Option Source → Text
source_text none = []
source_text (some command) = codes "command"
source_text (some git) = codes "git"

abbrev detail_text : Option Text → Text
detail_text none = []
detail_text (some t) = codes " · " ++ t

module _ {N : Type 0} where
  abbrev pub proc_failed : Proc N → Bool
  proc_failed p = is_errored (status_of p.state).kind

  unfoldable pub pid_figure : Proc N → Figure
  unfolding decimal
  pid_figure p =
      if proc_failed p
      then dim_dash
      else figure (codes "v") (if p.pid == 0 then dash else decimal p.pid) none

  -- In MiB, with one decimal.
  unfoldable pub mem_figure : Proc N → Figure
  unfolding fixed1
  mem_figure p =
      if proc_failed p
      then dim_dash
      else if ltb 0 p.mem
      then figure (codes "v indigo") (fixed1 (tenths_div p.mem mib)) (some (codes "MB"))
      else figure (codes "v indigo") dash none

  -- When the process began, in seconds.
  abbrev pub began : ℕ → Proc N → ℕ
  began now_ms p = now_ms / 1000 - p.uptime_ms / 1000

  unfoldable pub uptime_figure : ℕ → Proc N → Figure
  unfolding relative_time
  uptime_figure now_ms p =
      if proc_failed p
      then dim_dash
      else figure (codes "v olive")
          (if ltb 0 p.uptime_ms then relative_time (began now_ms p) now_ms else dash) none

  unfoldable pub restarts_class : Proc N → Text
  restarts_class p = codes "v" ++ (if ltb 0 p.restarts_24h then codes " amber" else [])

  unfoldable pub sub_line : Proc N → Text
  sub_line p = source_text p.source ++ detail_text (filled_in p.detail)

  -- The key by which a row is kept.
  unfoldable pub row_key : Proc N → Text
  row_key p = p.name ++ (codes "-" ++ decimal p.pid)

-- What a button of a row does.
pub data RowAction : Type 0 where
  open_log : RowAction
  send : Action → RowAction

unfoldable pub row_actions : List (QuickAction RowAction)
row_actions =
    (record { icon = codes "▤"; label = codes "Log"; variant = none; on_click = open_log })
    ∷ (record {
      icon = codes "▸";
      label = codes "Restart";
      variant = none;
      on_click = send restart;
    })
    ∷ (record {
      icon = codes "⟲";
      label = codes "Reload";
      variant = some (codes "warn");
      on_click = send reload;
    })
    ∷ (record {
      icon = codes "■";
      label = codes "Stop";
      variant = some (codes "dgr");
      on_click = send stop;
    })
    ∷ []

-- `control(...).catch(() => {})`: the call's end is dropped.
abbrev dropped : Outcome ControlResult → Dialogs → Dialogs
dropped m d = d

-- A click on a row: its button's action, or the link to the page of the process.
unfoldable pub row_click : (agent proc : Text) → Target → List (Ran RowAction (Outcome Text))
unfolding click_row row_actions proc_href
row_click agent proc target = click_row row_actions (some (proc_href agent proc)) target

unfoldable pub run_action :
    {N : Type 0} → Fetch N ControlResult → (agent proc : Text) → RowAction → Dialogs → Dialogs
unfolding open_live
run_action fetch agent proc open_log d = open_live agent proc d
run_action fetch agent proc (send a) d = dropped (control fetch agent proc a) d

pub record Row (N : Type 0) : Type 0 where
  pub key : Text
  pub index : Text
  pub name : Text
  pub sub : Text
  pub status : Text × Text × Text
  pub pid : Figure
  pub cpu : Figure
  pub mem : Figure
  pub uptime : Figure
  pub restarts : Text
  pub restarts_cls : Text
  pub trend : List N
  pub trend_color : Text

pub record Section (N : Type 0) : Type 0 where
  pub header : SectionHeader
  pub meta : Option Text
  pub empty : Option Text
  pub rows : List (Row N)

module _ (F : Floats) where
  open F use {Num, to_fixed}

  unfoldable pub cpu_figure : Proc Num → Figure
  cpu_figure p =
      if proc_failed p
      then dim_dash
      else figure (codes "v teal") (to_fixed 0 p.cpu) (some (codes "%"))

  unfoldable pub row_view : ℕ → Series Num → (agent : Text) → ℕ → Proc Num → Row Num
  unfolding row_key sub_line pid_figure cpu_figure mem_figure uptime_figure restarts_class
      cpu_series decimal status_glyph pad_start
  row_view now_ms metrics agent i p = record {
    key = row_key p;
    index = row_number i;
    name = p.name;
    sub = sub_line p;
    status = status_glyph p.state;
    pid = pid_figure p;
    cpu = cpu_figure p;
    mem = mem_figure p;
    uptime = uptime_figure now_ms p;
    restarts = decimal p.restarts_24h;
    restarts_cls = restarts_class p;
    trend = cpu_series agent p.name metrics;
    trend_color = if proc_failed p then codes "var(--rose)" else codes "var(--teal)";
  }

  unfoldable pub rows_from : ℕ → Series Num → (agent : Text) → ℕ → List (Proc Num) → List (Row Num)
  unfolding row_view
  rows_from now_ms metrics agent i [] = []
  rows_from now_ms metrics agent i (p ∷ ps) =
      row_view now_ms metrics agent i p ∷ rows_from now_ms metrics agent (suc i) ps

abbrev one_of : Option Text → List Text
one_of none = []
one_of (some s) = s ∷ []

abbrev os_part : List Text → List Text
os_part [] = []
os_part (w ∷ ws) = join (codes "/") (w ∷ ws) ∷ []

abbrev seen_part : ℕ → ℕ → List Text
seen_part seen now_ms = if seen == 0 then [] else (codes "seen " ++ relative_time seen now_ms) ∷ []

module _ {N : Type 0} where
  -- `metaParts`: the address, the system, and when the agent was seen, without empty pieces.
  unfoldable pub meta_parts : ℕ → Agent N → List Text
  unfolding join relative_time
  meta_parts now_ms a =
      one_of (filled_in a.ip)
      ++ (os_part (one_of (filled_in a.os) ++ one_of (filled_in a.arch))
          ++ seen_part a.last_seen_unix now_ms)

  unfoldable pub meta_line : ℕ → Agent N → Text
  unfolding meta_parts join
  meta_line now_ms a = join (codes " · ") (meta_parts now_ms a)

  -- The header's glyph.
  unfoldable pub agent_glyph : Agent N → Text
  agent_glyph a = codes "glyph " ++ (if any proc_failed a.procs then codes "g-er" else codes "g-on")

  abbrev no_procs : List (Proc N) → Option Text
  no_procs [] = some (codes "no processes.")
  no_procs (p ∷ ps) = none

module _ (F : Floats) where
  open F use {Num}

  unfoldable pub section_view : ℕ → Series Num → ℕ → Agent Num → Section Num
  unfolding rows_from meta_line agent_glyph decimal pad_start
  section_view now_ms metrics i a = record {
    header = record {
      index = row_number i;
      title = a.name;
      glyph = some (agent_glyph a);
      count = some (decimal (length a.procs) ++ codes " proc");
    };
    meta = filled_in (some (meta_line now_ms a));
    empty = no_procs a.procs;
    rows = rows_from F now_ms metrics a.name 0 a.procs;
  }

  unfoldable pub sections_from : ℕ → Series Num → ℕ → List (Agent Num) → List (Section Num)
  unfolding section_view
  sections_from now_ms metrics i [] = []
  sections_from now_ms metrics i (a ∷ rest) =
      section_view now_ms metrics i a ∷ sections_from now_ms metrics (suc i) rest
