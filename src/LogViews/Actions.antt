-- ===== src/LogViews/Actions.antt =====
-- What the actions of a reader of web/src/LiveLogModal.tsx make of its choices.
use marshal_pm.Base.{
  ◌%◌, ◌≡◌, refl, sym, ap, ◌∙◌, arith, Bool, true, false, not, select, length, ◌==◌, if◌then◌else◌,
  text_eq→eq, inl, inr, Bool-cases, Option, none, some, List, [], ◌∷◌, Text, text_eq,
}
use marshal_pm.Api.Types.{LogsResponse}
use marshal_pm.Base.{Outcome}
use marshal_pm.LogFilter.{Level, info, warn, error}
use marshal_pm.LogStream.{on_reply}
use marshal_pm.LogViews.{
  LiveLog, set_filter, timer_fires, set_paused, set_stream, toggle_level, set_debounced, same_bool,
  has_level, same_level,
}
use marshal_pm.LogViews.Lines.{has_level-toggled}

-- What may happen to the dialog.
pub data Action : Type 0 where
  typed chose_stream : Text → Action
  fired : Action
  paused : Bool → Action
  clicked : Level → Action
  replied : Outcome LogsResponse → Action

unfoldable pub act : Action → LiveLog → LiveLog
act (typed v) s = set_filter v s
act (chose_stream v) s = set_stream v s
act fired s = timer_fires s
act (paused b) s = set_paused b s
act (clicked l) s = toggle_level l s
act (replied m) s = record s { log = on_reply m s.log }

unfoldable pub run : List Action → LiveLog → LiveLog
run [] s = s
run (a ∷ rest) s = run rest (act a s)

-- Whether two levels are one.
abbrev pub is_twin : Level → Level → Bool
is_twin info info = true
is_twin warn warn = true
is_twin error error = true
is_twin _ _ = false

-- Whether an action is a click on the level.
abbrev pub is_click : Level → Action → Bool
is_click k (clicked l) = is_twin k l
is_click k _ = false

-- A level is chosen from the opening on, and by every second click on it.
abbrev pub chosen : Level → List Action → Bool
chosen k actions = length (select (is_click k) actions) % 2 == 0

-- What was typed in last, after a text that was there before.
abbrev pub last_typed : Text → List Action → Text
last_typed before [] = before
last_typed before (typed v ∷ rest) = last_typed v rest
last_typed before (a ∷ rest) = last_typed before rest

is_twin-same_level : (k l : Level) → is_twin k l ≡ same_level k l
is_twin-same_level info info = refl
is_twin-same_level info warn = refl
is_twin-same_level info error = refl
is_twin-same_level warn info = refl
is_twin-same_level warn warn = refl
is_twin-same_level warn error = refl
is_twin-same_level error info = refl
is_twin-same_level error warn = refl
is_twin-same_level error error = refl

-- What an action does to the text of the input, and to the levels.
set_filter-filter : (v : Text) (s : LiveLog) → (set_filter v s).filter ≡ v
unfolding set_filter
set_filter-filter v s = elim (Bool-cases (text_eq v s.filter)) [
  | inl same ↦ rw same (sym (text_eq→eq v s.filter same))
  | inr other ↦ rw other refl
]

-- An action that is neither a change of the input nor a click leaves both.
abbrev Leaves : LiveLog → LiveLog → Type 0
Leaves s s' = (s'.filter ≡ s.filter) × (s'.level_set ≡ s.level_set)

set_debounced-Leaves : (t : Option Text) (s : LiveLog) → Leaves s (set_debounced t s)
set_debounced-Leaves none s = (refl, refl)
set_debounced-Leaves (some v) s = (refl, refl)

timer_fires-Leaves : (s : LiveLog) → Leaves s (timer_fires s)
unfolding timer_fires
timer_fires-Leaves s = set_debounced-Leaves s.timer s

set_stream-Leaves : (v : Text) (s : LiveLog) → Leaves s (set_stream v s)
unfolding set_stream
set_stream-Leaves v s = elim (Bool-cases (text_eq v s.stream)) [
  | inl same ↦ rw same (refl, refl)
  | inr other ↦ rw other (refl, refl)
]

set_paused-Leaves : (b : Bool) (s : LiveLog) → Leaves s (set_paused b s)
unfolding set_paused
set_paused-Leaves b s = elim (Bool-cases (same_bool b s.paused)) [
  | inl same ↦ rw same (refl, refl)
  | inr other ↦ rw other (refl, refl)
]

set_filter-level_set : (v : Text) (s : LiveLog) → (set_filter v s).level_set ≡ s.level_set
unfolding set_filter
set_filter-level_set v s = elim (Bool-cases (text_eq v s.filter)) [
  | inl same ↦ rw same refl
  | inr other ↦ rw other refl
]

act-has_level :
    (k : Level) (a : Action) (s : LiveLog)
    → has_level k (act a s).level_set
      ≡ (if is_click k a then not (has_level k s.level_set) else has_level k s.level_set)
unfolding act toggle_level
act-has_level k (clicked l) s = rw (is_twin-same_level k l) (has_level-toggled k l s.level_set)
act-has_level k (typed v) s = ap (has_level k) (set_filter-level_set v s)
act-has_level k (chose_stream v) s = ap (has_level k) (set_stream-Leaves v s).1
act-has_level k fired s = ap (has_level k) (timer_fires-Leaves s).1
act-has_level k (paused b) s = ap (has_level k) (set_paused-Leaves b s).1
act-has_level k (replied m) s = refl

pub run-has_level :
    (k : Level) (actions : List Action) (s : LiveLog)
    → has_level k (run actions s).level_set
      ≡ (if chosen k actions then has_level k s.level_set else not (has_level k s.level_set))
unfolding run
run-has_level k [] s = refl
run-has_level k (a ∷ rest) s = ground (arith, run-has_level k rest (act a s), act-has_level k a s)

pub run-filter :
    (actions : List Action) (s : LiveLog) → (run actions s).filter ≡ last_typed s.filter actions
unfolding run act toggle_level
run-filter [] s = refl
run-filter (typed v ∷ rest) s =
    run-filter rest (set_filter v s) ∙ ap (λ t. last_typed t rest) (set_filter-filter v s)
run-filter (chose_stream v ∷ rest) s =
    run-filter rest (set_stream v s) ∙ ap (λ t. last_typed t rest) (set_stream-Leaves v s).0
run-filter (fired ∷ rest) s =
    run-filter rest (timer_fires s) ∙ ap (λ t. last_typed t rest) (timer_fires-Leaves s).0
run-filter (paused b ∷ rest) s =
    run-filter rest (set_paused b s) ∙ ap (λ t. last_typed t rest) (set_paused-Leaves b s).0
run-filter (clicked l ∷ rest) s = run-filter rest (toggle_level l s)
run-filter (replied m ∷ rest) s = run-filter rest (act (replied m) s)
