-- ===== src/Detail/Page.antt =====
-- web/src/ProcessDetail.tsx as a whole: what is shown above the tabs, below them, and over the page.
-- `date_short` and `local_time` are those of Cells, and `confirmed` is the answer to
-- `window.confirm`.
use marshal_pm.Base.{
  ◌*◌, ℕ, Bool, false, Option, none, some, List, [], ◌∷◌, Text, codes, map, Floats, ◌==◌,
  if◌then◌else◌, Outcome,
}
use marshal_pm.Api.Types.{Proc, Bucket, ControlResult}
use marshal_pm.Api.Apps.{reload}
use marshal_pm.Api.Http.{Fetch}
use marshal_pm.Router.{logs_href}
use marshal_pm.Status.{status_glyph}
use marshal_pm.Charts.{Metric, cpu, mem}
use marshal_pm.Detail.{Detail, Tail, header_meta, control_reason, do_control}
use marshal_pm.Detail.Cells.{
  windows, detail_cells, Sub, subtabs, subview, over, files, recent_lines, no_lines,
}
use marshal_pm.Ui.Ledger.{Cell, EmptyState}
use marshal_pm.Ui.Controls.{ButtonView, button_view, segment_view}

-- The crumbs: the texts, and the hash that a click leads to, if it is a link.
unfoldable pub breadcrumb : (agent proc : Text) → List (Text × Option Text)
breadcrumb agent proc =
    (codes "fleet", some (codes "#/")) ∷ (agent, some (codes "#/")) ∷ (proc, none) ∷ []

-- The page's own variables: the window of the charts, the tab, and whether the live log is open.
pub record PageState : Type 0 where
  pub window_ms : ℕ
  pub sub : Sub
  pub show_live : Bool

unfoldable pub page_opened : PageState
page_opened = record { window_ms = 15 * 60 * 1000; sub = over; show_live = false }

unfoldable pub set_live : Bool → PageState → PageState
set_live shown v = record v { show_live = shown }

unfoldable pub set_sub : Sub → PageState → PageState
set_sub sub v = record v { sub = sub }

unfoldable pub set_window : ℕ → PageState → PageState
set_window ms v = record v { window_ms = ms }

module _ {N : Type 0} where
  abbrev glyph_of : Option (Proc N) → Option (Text × Text × Text)
  glyph_of none = none
  glyph_of (some p) = some (status_glyph p.state)

  abbrev pub credential_of : Option (Proc N) → Option Text
  credential_of none = none
  credential_of (some p) = p.credential

  -- `reload`, which asks first.
  unfoldable pub on_reload :
      Fetch N ControlResult
      → (agent proc : Text) → (confirmed : Bool) → Detail N
      → Option (Detail N × Outcome ControlResult)
  unfolding do_control
  on_reload fetch agent proc confirmed s =
      if confirmed then some (do_control fetch agent proc reload s) else none

  abbrev control_button : Option Text → Detail N → Text → ButtonView
  control_button variant s text = button_view variant none none false (control_reason s) none text

  unfoldable pub action_buttons : Detail N → List ButtonView
  unfolding button_view control_reason
  action_buttons s =
      record { class = codes "btn"; disabled = false; title = none; text = codes "▤ live log" }
      ∷ control_button none s (codes "▸ restart")
      ∷ control_button (some (codes "warn")) s (codes "⟲ reload")
      ∷ control_button (some (codes "dgr")) s (codes "■ stop")
      ∷ []

-- The part below the tabs: the figures, the window, the charts and the last lines; or the files of
-- the app, with the credential that they are pushed with; or nothing.
pub data Body (N : Type 0) : Type 0 where
  over_body :
      List Cell
      → List (Option Text × Text × Bool)
      → List (Text × Metric × List (Bucket N))
      → Option EmptyState
      → List (Text × Text × Text)
      → Body N
  files_body : (agent app : Text) → Option Text → Body N
  no_body : Body N

module _ (F : Floats) where
  open F use {Num}

  abbrev pub body_of :
      Option Sub
      → (date_short local_time : ℕ → Text) → (now_ms : ℕ) → PageState
      → List (Bucket Num)
      → Tail
      → (agent app : Text) → Detail Num
      → Body Num
  body_of none date_short local_time now_ms v buckets tail agent app s = no_body
  body_of (some files) date_short local_time now_ms v buckets tail agent app s =
      files_body agent app (credential_of s.proc)
  body_of (some over) date_short local_time now_ms v buckets tail agent app s =
      over_body (detail_cells F date_short now_ms v.window_ms buckets s)
        (segment_view (λ a b. a == b) (map (λ w. (w.1, w.0)) windows) v.window_ms)
        ((codes "CPU %", cpu, buckets) ∷ (codes "Memory MB", mem, buckets) ∷ [])
        (no_lines tail.lines) (recent_lines local_time tail)

  unfoldable pub page_body :
      (date_short local_time : ℕ → Text)
      → (now_ms : ℕ) → PageState
      → List (Bucket Num)
      → Tail
      → (agent app : Text) → Detail Num
      → Body Num
  unfolding detail_cells segment_view recent_lines subview
  page_body date_short local_time now_ms v buckets tail agent app s =
      body_of (subview v.sub s) date_short local_time now_ms v buckets tail agent app s

  -- The page: the crumbs, the glyph and the line of the header, its buttons, the tabs, what is below
  -- them, and the process whose live log is open over the page.
  pub record DetailPage : Type 0 where
    pub breadcrumbs : List (Text × Option Text)
    pub glyph : Option (Text × Text × Text)
    pub name : Text
    pub meta : Text
    pub buttons : List ButtonView
    pub tabs : List (Text × Text)
    pub logs_link : Outcome Text
    pub body : Body Num
    pub live : Option (Text × Text)

  unfoldable pub detail_page :
      (date_short local_time : ℕ → Text)
      → (now_ms : ℕ) → PageState
      → List (Bucket Num)
      → Tail
      → (agent proc : Text) → Detail Num
      → DetailPage
  unfolding breadcrumb status_glyph header_meta action_buttons subtabs logs_href page_body
  detail_page date_short local_time now_ms v buckets tail agent proc s = record {
    breadcrumbs = breadcrumb agent proc;
    glyph = glyph_of s.proc;
    name = proc;
    meta = header_meta s;
    buttons = action_buttons s;
    tabs = subtabs v.sub s;
    logs_link = logs_href (some agent) (some proc);
    body = page_body date_short local_time now_ms v buckets tail agent proc s;
    live = if v.show_live then some (agent, proc) else none;
  }
