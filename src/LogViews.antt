-- ===== src/LogViews.antt =====
-- web/src/LiveLogModal.tsx, web/src/LogPanel.tsx and web/src/LogView.tsx: the views of a log. They
-- poll it by the hook of web/src/hooks/useLogStream.ts, and filter its lines. The clock, which gives
-- the local hour, minute and second, is a parameter.
pub mod Actions
pub mod Debounce
pub mod Lines
pub mod Scroll
pub mod Markup
pub mod Tests
use marshal_pm.Base.{
  ℕ, ◌+◌, ◌-◌, Bool, true, false, not, ◌&&◌, ◌||◌, Option, none, some, List, [], ◌∷◌, ◌++◌, Text,
  codes, decimal, text_eq, is_blank, pad_start, select, any, map, length, ltb, ◌==◌, if◌then◌else◌,
}
use marshal_pm.Api.Types.{LogLine}
use marshal_pm.Api.Fleet.{logs_download_url}
use marshal_pm.LogFilter.{Level, info, warn, error, classify_level, match_filter}
use marshal_pm.LogStream.{Stream, on_params, start_run, stop_run, on_enabled}

abbrev pub all_levels : List Level
all_levels = info ∷ warn ∷ error ∷ []

abbrev pub same_level : Level → Level → Bool
same_level info info = true
same_level warn warn = true
same_level error error = true
same_level _ _ = false

abbrev pub level_name : Level → Text
level_name info = codes "info"
level_name warn = codes "warn"
level_name error = codes "error"

-- The set of the levels that are shown, in the order of their insertion.
abbrev pub has_level : Level → List Level → Bool
has_level l levels = any (λ m. same_level m l) levels

unfoldable pub toggled : Level → List Level → List Level
toggled l levels =
    if has_level l levels then select (λ m. not (same_level m l)) levels else levels ++ l ∷ []

-- `timer` is the text that the pending timeout of the filter will set.
pub record LiveLog : Type 0 where
  pub paused : Bool
  pub stream : Text
  pub filter : Text
  pub debounced_filter : Text
  pub timer : Option Text
  pub level_set : List Level
  pub log : Stream

-- The dialog as it opens, with the effects of its first rendering.
unfoldable pub opened : LiveLog
unfolding start_run
opened = record {
  paused = false;
  stream = codes "all";
  filter = [];
  debounced_filter = [];
  timer = some [];
  level_set = all_levels;
  log = start_run true (record { lines = []; cursor = 0; first = false; stop = true });
}

-- A change of the input: the effect on the filter clears the timeout and sets another one.
unfoldable pub set_filter : Text → LiveLog → LiveLog
unfolding text_eq
set_filter v s = if text_eq v s.filter then s else record s { filter = v; timer = some v }

abbrev set_debounced : Option Text → LiveLog → LiveLog
set_debounced none s = s
set_debounced (some v) s = record s { debounced_filter = v; timer = none }

-- The timeout, if one is pending.
unfoldable pub timer_fires : LiveLog → LiveLog
timer_fires s = set_debounced s.timer s

abbrev same_bool : Bool → Bool → Bool
same_bool true b = b
same_bool false b = not b

-- The choice between live and pause, of which the hook's polls depend.
unfoldable pub set_paused : Bool → LiveLog → LiveLog
unfolding on_enabled
set_paused b s =
    if same_bool b s.paused then s else record s { paused = b; log = on_enabled (not b) s.log }

-- The choice of a stream: the hook's buffer is emptied, and its polls begin anew.
unfoldable pub set_stream : Text → LiveLog → LiveLog
unfolding text_eq on_params start_run stop_run
set_stream v s =
    if text_eq v s.stream
    then s
    else record s { stream = v; log = start_run (not s.paused) (on_params (stop_run s.log)) }

unfoldable pub toggle_level : Level → LiveLog → LiveLog
unfolding toggled
toggle_level l s = record s { level_set = toggled l s.level_set }

-- `enabled: !paused`, and the scrolling to the end that is left out while paused.
abbrev pub follows : LiveLog → Bool
follows s = not s.paused

unfoldable pub span_class : Level → Text
span_class error = codes "er"
span_class warn = codes "warn"
span_class info = codes "tx"

-- `levelClass` of `LogView`.
unfoldable pub level_class : LogLine → Text
unfolding classify_level
level_class line = elim (classify_level line) [
  | error ↦ codes "er"
  | warn ↦ codes "tx warn"
  | info ↦ codes "tx"
]

-- `fmtTime` of the dialog, over the clock.
unfoldable pub fmt_time : (ℕ → ℕ × ℕ × ℕ) → ℕ → Text
unfolding pad_start decimal
fmt_time clock ts =
    let (h, m, s) = clock ts in
    pad_start 2 (decimal h)
    ++ (codes ":" ++ (pad_start 2 (decimal m) ++ (codes ":" ++ pad_start 2 (decimal s))))

-- What is shown in the place of lines.
unfoldable pub empty_text : (lines visible : List LogLine) → Option Text
empty_text [] [] = some (codes "No log lines yet.")
empty_text (l ∷ lines) [] = some (codes "No lines match the current filter.")
empty_text lines (v ∷ visible) = none

pub record LiveView : Type 0 where
  pub title : Text
  pub chips : List (Text × Bool)
  pub download : Text
  pub rows : List (Text × Text × Text)
  pub empty : Option Text
  pub caret : Bool

module _ (to_lower : Text → Text) (regexp : Text → Option (Text → Bool)) where
  unfoldable pub visible_lines : List Level → Text → List LogLine → List LogLine
  unfolding classify_level
  visible_lines levels query lines =
      select (λ l. has_level (classify_level l) levels && match_filter to_lower regexp l.text query)
        lines

  unfoldable pub live_view : (ℕ → ℕ × ℕ × ℕ) → (agent proc : Text) → LiveLog → LiveView
  unfolding visible_lines fmt_time span_class classify_level empty_text
  live_view clock agent proc s =
      let visible = visible_lines s.level_set s.debounced_filter s.log.lines in
      record {
        title = codes "Live log · " ++ proc;
        chips = map (λ l. (level_name l, has_level l s.level_set)) all_levels;
        download = logs_download_url agent proc s.stream [];
        rows = map (λ l. (fmt_time clock l.ts, span_class (classify_level l), l.text)) visible;
        empty = empty_text s.log.lines visible;
        caret = ltb 0 (length visible);
      }

  -- `filteredLines` of `LogPanel`, where the empty filter is none.
  unfoldable pub filtered_lines : Text → List LogLine → List LogLine
  filtered_lines filter lines =
      if is_blank filter
      then lines
      else select (λ l. match_filter to_lower regexp l.text filter) lines

-- `LogPanel`: its choices, and its filter, which waits like that of the dialog.
pub record LogPanel : Type 0 where
  pub stream : Text
  pub limit : ℕ
  pub filter_raw : Text
  pub filter : Text
  pub timer : Option Text
  pub log : Stream

unfoldable pub panel_opened : LogPanel
unfolding start_run
panel_opened = record {
  stream = codes "all";
  limit = 500;
  filter_raw = [];
  filter = [];
  timer = some [];
  log = start_run true (record { lines = []; cursor = 0; first = false; stop = true });
}

unfoldable pub type_filter : Text → LogPanel → LogPanel
unfolding text_eq
type_filter v p = if text_eq v p.filter_raw then p else record p { filter_raw = v; timer = some v }

abbrev set_panel_filter : Option Text → LogPanel → LogPanel
set_panel_filter none p = p
set_panel_filter (some v) p = record p { filter = v; timer = none }

unfoldable pub panel_timer : LogPanel → LogPanel
panel_timer p = set_panel_filter p.timer p

-- Another stream or limit: the hook begins anew.
unfoldable pub choose_stream : Text → LogPanel → LogPanel
unfolding text_eq on_params start_run stop_run
choose_stream v p =
    if text_eq v p.stream
    then p
    else record p { stream = v; log = start_run true (on_params (stop_run p.log)) }

unfoldable pub choose_limit : ℕ → LogPanel → LogPanel
unfolding on_params start_run stop_run
choose_limit v p =
    if v == p.limit
    then p
    else record p { limit = v; log = start_run true (on_params (stop_run p.log)) }

-- `LogView`: the box that the lines scroll in, in whole pixels, and whether it sticks to its end.
pub record Box : Type 0 where
  pub scroll_height : ℕ
  pub scroll_top : ℕ
  pub client_height : ℕ

abbrev pub at_bottom : Box → Bool
at_bottom el = ltb (el.scroll_height - el.scroll_top - el.client_height) 24

unfoldable pub on_scroll : Option Box → Bool → Bool
on_scroll none stick = stick
on_scroll (some el) stick = at_bottom el

-- The effect on the lines and on `stick`, over the assignment to `scrollTop`.
unfoldable pub scroll_effect : (ℕ → Box → Box) → Bool → Box → Box
scroll_effect assign_top stick el = if stick then assign_top el.scroll_height el else el

-- The button `Jump to latest`.
unfoldable pub jump_shown : Bool → Bool
jump_shown stick = not stick

unfoldable pub jump : Bool → Bool
jump stick = true
