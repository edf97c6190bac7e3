-- ===== src/Api/Creds.antt =====
-- web/src/api.ts: the stored credentials.
use marshal_pm.Base.{
  Bool, true, false, ◌||◌, Option, none, some, List, [], ◌∷◌, ◌++◌, Text, codes, if◌then◌else◌,
  Outcome, returned, threw, ◌>>=◌, catch,
}
use marshal_pm.Uri.{encode}
use marshal_pm.Api.Types.{CredentialMeta, ControlResult}
use marshal_pm.Api.Http.{
  str, post, delete, Response, Fetch, get_request, send, object, is_status, nullish, error_status,
}
use marshal_pm.Api.Apps.{failed}

pub record KeyResult : Type 0 where
  pub ok : Bool
  pub public_key : Option Text
  pub error : Option Text

abbrev done : ControlResult
done = record { ok = true; error = none }

abbrev was_created : {A : Type 0} → Response A → Bool
was_created r = is_status 201 r || is_status 200 r

-- The message of a failed reply: its member `error`, or its status.
abbrev failure_text : {A : Type 0} → Response A → Text
failure_text r = elim r.error_field [
  | returned e ↦ nullish e (error_status r.status)
  | threw _ ↦ error_status r.status
]

module _ {N : Type 0} where
  unfoldable pub list_credentials : Fetch N (List CredentialMeta) → Outcome (List CredentialMeta)
  list_credentials fetch = do
    r ← fetch (get_request (codes "/api/credentials"))
    if is_status 200 r then r.json else returned []

  unfoldable pub create_credential :
      Fetch N (Unit {0}) → (name username token : Text) → Outcome ControlResult
  create_credential fetch name username token = do
    r ← fetch (
        send post (codes "/api/credentials") (
          some (
            object (
              (codes "name", str name)
              ∷ (codes "username", str username)
              ∷ (codes "token", str token)
              ∷ []))))
    returned (if was_created r then done else failed (failure_text r))

  -- The reply's JSON is `{ public_key }`.
  unfoldable pub create_ssh_credential : Fetch N (Option Text) → Text → Outcome KeyResult
  create_ssh_credential fetch name = do
    r ← fetch (
        send post (codes "/api/credentials")
          (some (object ((codes "name", str name) ∷ (codes "type", str (codes "ssh-key")) ∷ []))))
    if was_created r
        then catch
            (r.json >>= λ key. returned (record { ok = true; public_key = key; error = none }))
            (λ _. returned (record { ok = true; public_key = none; error = none }))
        else returned (record { ok = false; public_key = none; error = some (failure_text r) })

  unfoldable pub delete_credential : Fetch N (Unit {0}) → Text → Outcome ControlResult
  delete_credential fetch name = do
    path ← encode name
    r ← fetch (send delete (codes "/api/credentials/" ++ path) none)
    returned (if is_status 204 r then done else failed (error_status r.status))
