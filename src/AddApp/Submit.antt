-- ===== src/AddApp/Submit.antt =====
-- When the form can be submitted, and what a submission does.
use marshal_pm.Base.{◌≡◌, ◌↔◌, refl, arith, true, false, none, Floats, Outcome, returned, threw}
use marshal_pm.Api.Types.{ControlResult}
use marshal_pm.Api.Http.{Fetch}
use marshal_pm.Api.Apps.{add_app}
use marshal_pm.AddApp.{
  AddApp, can_submit, disabled_reason, source_of, begin_submit, end_submit, submit,
}

-- The form of an app can be submitted exactly when no reason is given for its button to be
-- disabled.
pub can_submit_iff : (s : AddApp) → (can_submit s ≡ true) ↔ (disabled_reason s ≡ none)
unfolding can_submit disabled_reason
can_submit_iff s = (λ h. ground arith, λ h. ground arith)

module _ (F : Floats) where
  open F use {Num}

  end_submit_lem :
      (m : Outcome ControlResult) (s : AddApp)
      → (((end_submit F m (begin_submit F s)).1 ≡ true)
          ↔ ((res : ControlResult) × (m ≡ returned res) × (res.ok ≡ true)))
        × (((end_submit F m (begin_submit F s)).0.busy ≡ false)
            ↔ ((res : ControlResult) × (m ≡ returned res)))
  unfolding end_submit begin_submit
  end_submit_lem (threw e) s = (((λ h. cc), λ (r, h, k). cc), ((λ h. cc), λ (r, h). cc))
  end_submit_lem (returned res) s = (
    ((λ h. (res, refl, ground arith)), λ (r, h, k). ground arith),
    ((λ h. (res, refl)), λ (r, h). ground arith),
  )

  -- A complete form is sent to the chosen agent with its source. The dialog reports the app and
  -- closes exactly if the server accepts it, and takes input again exactly if the call returned.
  pub submit_lem :
      (fetch : Fetch Num ControlResult) (s : AddApp)
      → disabled_reason s ≡ none
      → (((submit F fetch s).1 ≡ true) ↔ (
          (res : ControlResult) × (add_app fetch s.agent (source_of F s) ≡ returned res)
          × (res.ok ≡ true)))
        × (((submit F fetch s).0.busy ≡ false)
            ↔ ((res : ControlResult) × (add_app fetch s.agent (source_of F s) ≡ returned res)))
  unfolding submit
  submit_lem fetch s h =
      rw ((can_submit_iff s).1 h, submit) (end_submit_lem (add_app fetch s.agent (source_of F s)) s)
