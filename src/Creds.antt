-- ===== src/Creds.antt =====
-- web/src/Credentials.tsx: the stored credentials, the form that adds one, and their deletion.
pub mod Form
pub mod View
pub mod Page
pub mod Tests
use marshal_pm.Base.{
  ℕ, Bool, true, false, not, ◌&&◌, ◌||◌, Option, none, some, List, [], ◌∷◌, Text, codes, text_eq,
  is_blank, or_else, trim, if◌then◌else◌, Outcome, returned, threw, ◌>>=◌,
}
use marshal_pm.Api.Types.{CredentialMeta, ControlResult}
use marshal_pm.Api.Http.{Fetch, nullish}
use marshal_pm.Api.Creds.{
  KeyResult, list_credentials, create_credential, create_ssh_credential, delete_credential,
}
use marshal_pm.Ui.Notice.{Notice, no_notice, success, error, show}

pub data CredKind : Type 0 where
  https_token ssh_key : CredKind

pub record Creds : Type 0 where
  pub creds : List CredentialMeta
  pub loading : Bool
  pub kind : CredKind
  pub name : Text
  pub username : Text
  pub token : Text
  pub busy : Bool
  pub error : Text
  pub delete_target : Option Text
  pub new_public_key : Text
  pub notice : Notice

unfoldable pub opened : Creds
unfolding no_notice
opened = record {
  creds = [];
  loading = true;
  kind = https_token;
  name = [];
  username = [];
  token = [];
  busy = false;
  error = [];
  delete_target = none;
  new_public_key = [];
  notice = no_notice;
}

abbrev pub filled : Text → Bool
filled s = not (is_blank (trim s))

abbrev is_ssh : CredKind → Bool
is_ssh ssh_key = true
is_ssh https_token = false

unfoldable pub can_submit : Creds → Bool
unfolding trim
can_submit s =
    if is_ssh s.kind
    then filled s.name && not s.busy
    else filled s.name && (filled s.username && (not (is_blank s.token) && not s.busy))

unfoldable pub disabled_reason : Creds → Option Text
unfolding trim
disabled_reason s =
    if s.busy
    then some (codes "saving…")
    else if not (filled s.name)
    then some (codes "enter a name")
    else if not (is_ssh s.kind) && not (filled s.username)
    then some (codes "enter a username")
    else if not (is_ssh s.kind) && is_blank s.token
    then some (codes "enter a token")
    else none

-- `refresh`: the list as the server has it; a rejected call ends the handler that waits for it.
unfoldable pub refreshed : Outcome (List CredentialMeta) → Creds → Creds
refreshed (returned list) s = record s { creds = list; loading = false }
refreshed (threw e) s = s

-- The end of a handler that waits for `refresh` and then reports success.
unfoldable pub refreshed_then : Text → Outcome (List CredentialMeta) → Creds → Creds
unfolding refreshed show
refreshed_then text (returned list) s =
    let t = refreshed (returned list) s in record t { notice = show success text t.notice }
refreshed_then text (threw e) s = s

unfoldable pub begin_create : Creds → Creds
begin_create s = record s { busy = true; error = []; new_public_key = [] }

unfoldable pub created_key : Outcome KeyResult → Outcome (List CredentialMeta) → Creds → Creds
unfolding refreshed_then show
created_key (threw e) list s = s
created_key (returned res) list s =
    if res.ok
    then refreshed_then (codes "key generated") list
        (record s { busy = false; new_public_key = nullish res.public_key []; name = [] })
    else record s {
      busy = false;
      notice = show error (or_else (nullish res.error []) (codes "error")) s.notice;
    }

unfoldable pub created_token : Outcome ControlResult → Outcome (List CredentialMeta) → Creds → Creds
unfolding refreshed_then show
created_token (threw e) list s = s
created_token (returned res) list s =
    if res.ok
    then refreshed_then (codes "credential added") list
        (record s { busy = false; name = []; username = []; token = [] })
    else record s {
      busy = false;
      notice = show error (or_else (nullish res.error []) (codes "error")) s.notice;
    }

-- The button `confirm` of a row: another row's name is only asked about.
unfoldable pub ask_delete : Text → Creds → Creds
ask_delete name s = record s { delete_target = some name }

unfoldable pub cancel_delete : Creds → Creds
cancel_delete s = record s { delete_target = none }

abbrev is_target : Text → Option Text → Bool
is_target name none = false
is_target name (some target) = text_eq target name

unfoldable pub deleted : Outcome ControlResult → Outcome (List CredentialMeta) → Creds → Creds
unfolding refreshed
deleted (threw e) list s = s
deleted (returned res) list s =
    if res.ok
    then refreshed list s
    else record s { error = or_else (nullish res.error []) (codes "error") }

unfoldable pub set_kind : CredKind → Creds → Creds
set_kind kind s = record s { kind = kind; new_public_key = []; error = [] }

module _ {N : Type 0} (fetch_list : Fetch N (List CredentialMeta))
    (fetch_key : Fetch N (Option Text)) (fetch : Fetch N (Unit {0})) where
  -- The form, by the kind of credential.
  create_kind : CredKind → Creds → Creds
  create_kind ssh_key s =
      created_key (create_ssh_credential fetch_key (trim s.name)) (list_credentials fetch_list)
        (begin_create s)
  create_kind https_token s =
      created_token (create_credential fetch (trim s.name) (trim s.username) s.token)
        (list_credentials fetch_list) (begin_create s)

  pub handle_create : Creds → Creds
  handle_create s = if can_submit s then create_kind s.kind s else s

  pub handle_delete : Text → Creds → Creds
  handle_delete name s =
      if is_target name s.delete_target
      then deleted (delete_credential fetch name) (list_credentials fetch_list) (cancel_delete s)
      else ask_delete name s
