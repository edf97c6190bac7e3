-- ===== src/Ui/Tests.antt =====
-- A message that is replaced, the ends of a dialog with three elements, and two operations.
use marshal_pm.Base.{
  ℕ, get_elem?, some, arith, ◌≡◌, ◌↔◌, refl, false, List, [], ◌∷◌, Text, codes, threw,
}
use marshal_pm.Api.Apps.{restart, control}
use marshal_pm.Ui.Notice.{Event, shown, ran_out, success, no_notice, run}
use marshal_pm.Ui.Notice.Lifetime.{IsTidy, run-IsTidy}
use marshal_pm.Ui.Modal.{on_tab}
use marshal_pm.Ui.Modal.Focus.{focus_after, on_tab-ring}
use marshal_pm.Ui.Buttons.{idle, face, waiting, buttons, fire, timer_fires}
use marshal_pm.Ui.Buttons.Flow.{Answered, fire-face}
use marshal_pm.Samples.{unreachable}

abbrev events : List Event
events = shown success (codes "saved") ∷ shown success (codes "test sent") ∷ ran_out 1 ∷ []

run-IsTidy_example : IsTidy (run no_notice events)
run-IsTidy_example = run-IsTidy events

abbrev elements : List ℕ
elements = 4 ∷ 5 ∷ 6 ∷ []

on_tab-ring_example : get_elem? elements 0 ≡ some (focus_after (on_tab false elements 6) 6 9)
on_tab-ring_example = on_tab-ring false elements 2 6 9 (ground arith) refl (λ inside. cc)

fire-face_example :
    ((face (fire unreachable (codes "a1") (codes "web") restart idle) ≡ buttons)
      ↔ Answered (control unreachable (codes "a1") (codes "web") restart))
    × ((face (timer_fires 1 (fire unreachable (codes "a1") (codes "web") restart idle)) ≡ waiting)
        ↔ ((e : Text) × (control unreachable (codes "a1") (codes "web") restart ≡ threw e)))
fire-face_example = fire-face unreachable (codes "a1") (codes "web") restart idle 1
