-- ===== src/LogViews/Debounce.antt =====
-- The filter of the dialog of web/src/LiveLogModal.tsx, which waits for the typing to end.
use marshal_pm.Base.{
  ℕ, map, ◌≡◌, refl, ap, ◌∙◌, arith, Bool, ◌&&◌, select, inl, inr, Bool-cases, Option, none, some,
  List, [], ◌∷◌, Text, text_eq,
}
use marshal_pm.LogFilter.{Level, classify_level, match_filter}
use marshal_pm.LogViews.{
  LiveLog, opened, set_filter, timer_fires, set_paused, set_stream, toggle_level, visible_lines,
  live_view, fmt_time, span_class, empty_text, set_debounced, same_bool, has_level,
}
use marshal_pm.LogViews.Actions.{
  Action, typed, chose_stream, fired, paused, clicked, replied, act, run, chosen, last_typed,
  run-has_level, run-filter,
}
use marshal_pm.LogViews.Lines.{has_all, select-ext}

-- The filter that is used is that of the input, or the timeout will set it.
abbrev Waits : Option Text → Text → Text → Type 0
Waits none filter used = used ≡ filter
Waits (some v) filter used = v ≡ filter

abbrev IsDue : LiveLog → Type 0
IsDue s = Waits s.timer s.filter s.debounced_filter

set_filter-IsDue : (v : Text) (s : LiveLog) → IsDue s → IsDue (set_filter v s)
unfolding set_filter
set_filter-IsDue v s h = elim (Bool-cases (text_eq v s.filter)) [
  | inl same ↦ rw same h
  | inr other ↦ rw other refl
]

-- The timeout makes the filter that of the input, and leaves the rest.
abbrev Settles : LiveLog → LiveLog → Type 0
Settles s s' =
    (s'.debounced_filter ≡ s.filter) × (s'.level_set ≡ s.level_set) × (s'.log ≡ s.log) × IsDue s'

set_debounced-Settles :
    (t : Option Text) (s : LiveLog)
    → Waits t s.filter s.debounced_filter
    → IsDue s
    → Settles s (set_debounced t s)
set_debounced-Settles none s h due = (h, refl, refl, due)
set_debounced-Settles (some v) s h due = (h, refl, refl, h)

timer_fires-Settles : (s : LiveLog) → IsDue s → Settles s (timer_fires s)
unfolding timer_fires
timer_fires-Settles s due = set_debounced-Settles s.timer s due due

set_stream-IsDue : (v : Text) (s : LiveLog) → IsDue s → IsDue (set_stream v s)
unfolding set_stream
set_stream-IsDue v s h = elim (Bool-cases (text_eq v s.stream)) [
  | inl same ↦ rw same h
  | inr other ↦ rw other h
]

set_paused-IsDue : (b : Bool) (s : LiveLog) → IsDue s → IsDue (set_paused b s)
unfolding set_paused
set_paused-IsDue b s h = elim (Bool-cases (same_bool b s.paused)) [
  | inl same ↦ rw same h
  | inr other ↦ rw other h
]

act-IsDue : (a : Action) (s : LiveLog) → IsDue s → IsDue (act a s)
unfolding act toggle_level
act-IsDue (typed v) s h = set_filter-IsDue v s h
act-IsDue (chose_stream v) s h = set_stream-IsDue v s h
act-IsDue fired s h = (timer_fires-Settles s h).3
act-IsDue (paused b) s h = set_paused-IsDue b s h
act-IsDue (clicked l) s h = h
act-IsDue (replied m) s h = h

run-IsDue : (actions : List Action) (s : LiveLog) → IsDue s → IsDue (run actions s)
unfolding run
run-IsDue [] s h = h
run-IsDue (a ∷ rest) s h = run-IsDue rest (act a s) (act-IsDue a s h)

opened-IsDue : IsDue opened
unfolding opened
opened-IsDue = refl

chosen-run :
    (k : Level) (actions : List Action)
    → has_level k (run actions opened).level_set ≡ chosen k actions
unfolding opened
chosen-run k actions = ground (arith, run-has_level k actions opened, has_all k)

last_typed-run : (actions : List Action) → (run actions opened).filter ≡ last_typed [] actions
unfolding opened
last_typed-run actions = run-filter actions opened

-- The levels and the text that the dialog filters by are those of the actions.
shown-run :
    (to_lower : Text → Text) (regexp : Text → Option (Text → Bool)) (actions : List Action)
    → let s = run actions opened in
      select
        (λ l.
          has_level (classify_level l) s.level_set && match_filter to_lower regexp l.text s.filter)
        s.log.lines
      ≡ select
          (λ l.
            chosen (classify_level l) actions
            && match_filter to_lower regexp l.text (last_typed [] actions))
          s.log.lines
shown-run to_lower regexp actions =
    let s = run actions opened in
    select-ext _ _ s.log.lines λ l.
      ap (λ b. b && match_filter to_lower regexp l.text s.filter)
        (chosen-run (classify_level l) actions)
      ∙ ap (λ u. chosen (classify_level l) actions && match_filter to_lower regexp l.text u)
          (last_typed-run actions)

-- Whatever happened to the dialog since it was opened: once its timeout has run out, it shows of
-- the lines of its buffer, in their order, exactly those whose level was clicked an even number of
-- times and that match the text that was typed in last.
pub visible_lines-run :
    (to_lower : Text → Text) (regexp : Text → Option (Text → Bool)) (clock : ℕ → ℕ × ℕ × ℕ)
    (agent proc : Text) (actions : List Action)
    → let s = run actions opened in
      let shown =
        select
          (λ l.
            chosen (classify_level l) actions
            && match_filter to_lower regexp l.text (last_typed [] actions))
          s.log.lines in
      let view = live_view to_lower regexp clock agent proc (timer_fires s) in
      (view.rows ≡ map (λ l. (fmt_time clock l.ts, span_class (classify_level l), l.text)) shown)
      × (view.empty ≡ empty_text s.log.lines shown)
unfolding live_view visible_lines
visible_lines-run to_lower regexp clock agent proc actions =
    let s = run actions opened in
    let (filter, levels, log, due) =
      timer_fires-Settles s (run-IsDue actions opened opened-IsDue) in
    let q = shown-run to_lower regexp actions in
    (rw (filter, levels, log, q) refl, rw (filter, levels, log, q) refl)
