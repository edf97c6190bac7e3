-- ===== src/Creds/View.antt =====
-- What web/src/Credentials.tsx shows of the stored credentials and of its form; `date_short` is
-- `formatDateShort` of web/src/lib/format.ts.
use marshal_pm.Base.{
  ℕ, Bool, true, false, Option, none, some, List, [], ◌∷◌, ◌++◌, Text, codes, text_eq, map,
  if◌then◌else◌,
}
use marshal_pm.Api.Types.{CredentialMeta}
use marshal_pm.Creds.{Creds, CredKind, https_token, ssh_key, disabled_reason}
use marshal_pm.Ui.Ledger.{filled_in}

abbrev is_ssh_key : CredentialMeta → Bool
is_ssh_key c = text_eq c.type (codes "ssh-key")

-- The buttons of a row: to delete it, or while that is asked to confirm or cancel it.
pub data RowButtons : Type 0 where
  ask_delete confirm_or_cancel : RowButtons

abbrev is_target : Option Text → Text → Bool
is_target none name = false
is_target (some t) name = text_eq t name

pub record CredRow : Type 0 where
  pub name : Text
  pub type_class : Text
  pub type : Text
  pub created : Text
  pub buttons : RowButtons
  pub public_key : Option Text

unfoldable pub cred_row : (ℕ → Text) → Option Text → CredentialMeta → CredRow
unfolding text_eq
cred_row date_short target c = record {
  name = c.name;
  type_class = codes "v " ++ (if is_ssh_key c then codes "indigo" else codes "sky");
  type = if is_ssh_key c then codes "ssh-key" else codes "https · " ++ c.username;
  created = date_short c.created_at;
  buttons = if is_target target c.name then confirm_or_cancel else ask_delete;
  public_key = if is_ssh_key c then filled_in c.public_key else none;
}

unfoldable pub cred_rows : (ℕ → Text) → Creds → List CredRow
unfolding cred_row
cred_rows date_short s = map (cred_row date_short s.delete_target) s.creds

unfoldable pub kind_hint : CredKind → Text
kind_hint ssh_key =
    codes "generates an ed25519 key pair — add the public key as a deploy key on your repo"
kind_hint https_token = codes "stores your personal access token for HTTPS git operations"

-- The inputs below the kind: the label, whether what is typed is hidden, and the value.
abbrev token_inputs : CredKind → Text → Text → List (Text × Bool × Text)
token_inputs ssh_key username token = []
token_inputs https_token username token =
    (codes "username", false, username) ∷ (codes "token", true, token) ∷ []

unfoldable pub form_inputs : Creds → List (Text × Bool × Text)
form_inputs s = (codes "name", false, s.name) ∷ token_inputs s.kind s.username s.token

abbrev submit_label : CredKind → Text
submit_label ssh_key = codes "generate key"
submit_label https_token = codes "add credential"

-- The button of the form: its text, and why it is disabled.
unfoldable pub submit_view : Creds → Text × Option Text
unfolding disabled_reason
submit_view s = ((if s.busy then codes "saving…" else submit_label s.kind), disabled_reason s)

-- The error, and the public key of the credential that was just made.
unfoldable pub form_notes : Creds → Option Text × Option Text
form_notes s = (filled_in (some s.error), filled_in (some s.new_public_key))
