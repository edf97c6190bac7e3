-- ===== src/LogViews/Markup.antt =====
-- What web/src/LogPanel.tsx and web/src/LogView.tsx show. `local_time` is the locale's time of day,
-- with hours, minutes and seconds.
use marshal_pm.Base.{ℕ, Bool, Option, none, some, List, [], ◌∷◌, Text, codes, text_eq, map, ◌==◌}
use marshal_pm.Api.Types.{LogLine}
use marshal_pm.Api.Fleet.{logs_download_url}
use marshal_pm.LogViews.{LogPanel, level_class, jump_shown, filtered_lines}
use marshal_pm.Ui.Controls.{segment_view}

-- The lines with their times and classes, what stands in their place, and whether the button that
-- jumps to the latest is shown.
pub record LinesView : Type 0 where
  pub empty : Option Text
  pub rows : List (Text × Text × Text)
  pub jump : Bool

abbrev no_lines_text : List LogLine → Option Text
no_lines_text [] = some (codes "No log lines.")
no_lines_text (l ∷ ls) = none

unfoldable pub lines_view : (ℕ → Text) → Bool → List LogLine → LinesView
unfolding level_class jump_shown
lines_view local_time stick lines = record {
  empty = no_lines_text lines;
  rows = map (λ l. (local_time l.ts, level_class l, l.text)) lines;
  jump = jump_shown stick;
}

abbrev pub stream_opts : List (Text × Text)
stream_opts =
    (codes "all", codes "all")
    ∷ (codes "stdout", codes "stdout")
    ∷ (codes "stderr", codes "stderr")
    ∷ []

abbrev pub limit_opts : List (ℕ × Text)
limit_opts = (500, codes "500") ∷ (1000, codes "1000") ∷ []

pub record PanelView : Type 0 where
  pub streams : List (Option Text × Text × Bool)
  pub placeholder : Text
  pub filter_raw : Text
  pub limits : List (Option Text × Text × Bool)
  pub download : Text
  pub lines : LinesView

module _ (to_lower : Text → Text) (regexp : Text → Option (Text → Bool)) where
  unfoldable pub panel_view :
      (ℕ → Text) → (agent proc : Text) → (stick : Bool) → LogPanel → PanelView
  unfolding segment_view lines_view filtered_lines text_eq
  panel_view local_time agent proc stick p = record {
    streams = segment_view text_eq stream_opts p.stream;
    placeholder = codes "filter… (text or /regex/)";
    filter_raw = p.filter_raw;
    limits = segment_view (λ a b. a == b) limit_opts p.limit;
    download = logs_download_url agent proc p.stream [];
    lines = lines_view local_time stick (filtered_lines to_lower regexp p.filter p.log.lines);
  }
