-- ===== src/Ui/Buttons/Flow.antt =====
-- The course of an operation.
use marshal_pm.Base.{ℕ, ◌≡◌, ◌↔◌, refl, arith, Text, Outcome, returned, threw}
use marshal_pm.Api.Types.{ControlResult}
use marshal_pm.Api.Http.{Fetch}
use marshal_pm.Api.Apps.{Action, control}
use marshal_pm.Ui.Buttons.{Buttons, begin_fire, end_fire, timer_fires, waiting, buttons, face, fire}

-- The call ended with a result, not by a rejection.
abbrev pub Answered : Outcome ControlResult → Type 0
Answered m = (res : ControlResult) × (m ≡ returned res)

end_fire-face :
    (m : Outcome ControlResult) (b : Buttons (Action × Text)) (t : ℕ)
    → ((face (end_fire m (begin_fire b)) ≡ buttons) ↔ Answered m)
      × ((face (timer_fires t (end_fire m (begin_fire b))) ≡ waiting)
          ↔ ((e : Text) × (m ≡ threw e)))
unfolding end_fire begin_fire face timer_fires
end_fire-face (returned res) b t =
    (((λ _. (res, refl)), (λ _. refl)), ((λ h. absurd (ground arith)), (λ (e, h). cc)))
end_fire-face (threw e) b t =
    (((λ h. cc), (λ (res, h). cc)), ((λ _. (e, refl)), (λ _. ground arith)))

-- An operation on a process leaves the buttons shown exactly when `control` returned a result. If
-- the call was rejected, they show the mark of a call that runs, whatever timers run out later.
pub fire-face :
    {N : Type 0} (fetch : Fetch N ControlResult) (agent proc : Text) (op : Action)
    (b : Buttons (Action × Text)) (t : ℕ)
    → ((face (fire fetch agent proc op b) ≡ buttons) ↔ Answered (control fetch agent proc op))
      × ((face (timer_fires t (fire fetch agent proc op b)) ≡ waiting)
          ↔ ((e : Text) × (control fetch agent proc op ≡ threw e)))
unfolding fire
fire-face fetch agent proc op b t = end_fire-face (control fetch agent proc op) b t
