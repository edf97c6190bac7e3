-- ===== src/Creds/Form.antt =====
-- When a credential can be added, and what a submission and a deletion do.
use marshal_pm.Base.{
  ◌≡◌, ◌↔◌, refl, arith, true, false, Option, none, List, [], Text, codes, is_blank, trim, Outcome,
  returned, threw,
}
use marshal_pm.Api.Types.{CredentialMeta, ControlResult}
use marshal_pm.Api.Http.{Fetch}
use marshal_pm.Api.Creds.{list_credentials, create_credential}
use marshal_pm.Creds.{
  https_token, Creds, can_submit, disabled_reason, refreshed, refreshed_then, begin_create,
  created_token, create_kind, handle_create,
}

-- The form of a credential can be submitted exactly when no reason is given for its button to be
-- disabled.
pub create_enabled_iff : (s : Creds) → (can_submit s ≡ true) ↔ (disabled_reason s ≡ none)
unfolding can_submit disabled_reason
create_enabled_iff s = (λ h. ground arith, λ h. ground arith)

token_given :
    (s : Creds) → s.kind ≡ https_token → disabled_reason s ≡ none → is_blank s.token ≡ false
unfolding disabled_reason
token_given s k h = ground arith

refreshed_then_fields :
    (text : Text) (list : Outcome (List CredentialMeta)) (s : Creds)
    → ((refreshed_then text list s).token ≡ s.token)
      × ((refreshed_then text list s).busy ≡ s.busy)
      × ((refreshed_then text list s).new_public_key ≡ s.new_public_key)
unfolding refreshed_then refreshed
refreshed_then_fields text (returned l) s = (refl, refl, refl)
refreshed_then_fields text (threw e) s = (refl, refl, refl)

created_token_wipes :
    (list : Outcome (List CredentialMeta)) (res : ControlResult) (s : Creds)
    → is_blank s.token ≡ false
    → (((created_token (returned res) list (begin_create s)).token ≡ []) ↔ (res.ok ≡ true))
      × ((created_token (returned res) list (begin_create s)).busy ≡ false)
      × ((created_token (returned res) list (begin_create s)).new_public_key ≡ [])
unfolding created_token begin_create
created_token_wipes list res s b =
    let w =
      refreshed_then_fields (codes "credential added") list
        (record (begin_create s) { busy = false; name = []; username = []; token = [] }) in
    (((λ h. ground arith), λ h. ground arith), ground arith, ground arith)

module _ {N : Type 0} (fetch_list : Fetch N (List CredentialMeta))
    (fetch_key : Fetch N (Option Text)) (fetch : Fetch N (Unit {0})) where
  -- Where a token form has what it needs and the call for it returns, the token is wiped from the
  -- form exactly if the server stored it, the form takes input again, and no key is shown.
  pub handle_create-token :
      (s : Creds) (res : ControlResult)
      → s.kind ≡ https_token
      → disabled_reason s ≡ none
      → create_credential fetch (trim s.name) (trim s.username) s.token ≡ returned res
      → (((handle_create fetch_list fetch_key fetch s).token ≡ []) ↔ (res.ok ≡ true))
        × ((handle_create fetch_list fetch_key fetch s).busy ≡ false)
        × ((handle_create fetch_list fetch_key fetch s).new_public_key ≡ [])
  unfolding handle_create create_kind
  handle_create-token s res k h c =
      simp ((create_enabled_iff s).1 h, k, c)
        (created_token_wipes (list_credentials fetch_list) res s (token_given s k h))
