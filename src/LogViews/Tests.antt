-- ===== src/LogViews/Tests.antt =====
-- A dialog whose reader types, and a box that grows.
use marshal_pm.Base.{
  ℕ, ◌+◌, ◌-◌, ◌≡◌, refl, arith, true, none, List, [], ◌∷◌, Text, codes, leb, pad_start, decimal,
  Option, Bool, map, returned, if◌then◌else◌, select, ◌&&◌,
}
use marshal_pm.Api.Types.{LogLine}
use marshal_pm.LogFilter.{error, classify_level, match_filter}
use marshal_pm.LogViews.{
  opened, Box, timer_fires, visible_lines, filtered_lines, live_view, fmt_time, span_class,
  empty_text, all_levels,
}
use marshal_pm.LogViews.Actions.{
  Action, typed, fired, paused, clicked, replied, run, chosen, last_typed,
}
use marshal_pm.LogViews.Debounce.{visible_lines-run}
use marshal_pm.LogViews.Lines.{filtered_lines-visible_lines}
use marshal_pm.LogViews.Scroll.{Clamps}
use marshal_pm.Samples.{line}

abbrev same_case : Text → Text
same_case s = s

abbrev no_pattern : Text → Option (Text → Bool)
no_pattern s = none

abbrev noon : ℕ → ℕ × ℕ × ℕ
noon ts = (12, 0, ts)

abbrev two_lines : List LogLine
two_lines = line (codes "started") ∷ line (codes "warn: slow") ∷ []

abbrev reader : List Action
reader =
    replied (returned (record { cursor = 9; lines = two_lines }))
    ∷ typed (codes "s")
    ∷ fired
    ∷ typed (codes "sl")
    ∷ clicked error
    ∷ paused true
    ∷ []

abbrev box : Box
box = record { scroll_height = 100; scroll_top = 10; client_height = 40 }

-- An assignment to `scrollTop` that clamps.
abbrev clamp_top : ℕ → Box → Box
clamp_top top el = record el {
  scroll_top =
      if leb (top + el.client_height) el.scroll_height
      then top
      else el.scroll_height - el.client_height;
}

clamp_top-Clamps : Clamps clamp_top
clamp_top-Clamps top el = (refl, refl, (λ h. ground (arith, h)), λ h. ground (arith, h))

midday : fmt_time noon 7 ≡ codes "12:00:07"
unfolding fmt_time pad_start decimal
midday = refl

visible_lines-run_example :
    let s = run reader opened in
    let shown =
      select
        (λ l.
          chosen (classify_level l) reader
          && match_filter same_case no_pattern l.text (last_typed [] reader))
        s.log.lines in
    let view = live_view same_case no_pattern noon (codes "a1") (codes "web") (timer_fires s) in
    (view.rows ≡ map (λ l. (fmt_time noon l.ts, span_class (classify_level l), l.text)) shown)
    × (view.empty ≡ empty_text s.log.lines shown)
visible_lines-run_example =
    visible_lines-run same_case no_pattern noon (codes "a1") (codes "web") reader

filtered_lines-visible_lines_example :
    filtered_lines same_case no_pattern (codes "slow") two_lines
    ≡ visible_lines same_case no_pattern all_levels (codes "slow") two_lines
filtered_lines-visible_lines_example =
    filtered_lines-visible_lines same_case no_pattern (codes "slow") two_lines
