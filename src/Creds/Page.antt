-- ===== src/Creds/Page.antt =====
-- web/src/Credentials.tsx as a whole: the table of what is stored, and the form below it.
use marshal_pm.Base.{
  ℕ, Bool, true, false, Option, none, some, List, [], ◌∷◌, ◌++◌, Text, codes, decimal, length,
  if◌then◌else◌,
}
use marshal_pm.Api.Types.{CredentialMeta}
use marshal_pm.Creds.{Creds, CredKind, https_token, ssh_key}
use marshal_pm.Creds.View.{CredRow, cred_rows, kind_hint, form_inputs, submit_view, form_notes}
use marshal_pm.Ui.Controls.{FieldView, field_view, segment_view, ButtonView, button_view}
use marshal_pm.Ui.Ledger.{SectionHeader}
use marshal_pm.Ui.Notice.{NoticeKind, status_message}

-- What stands below the first header: a line, or the captions and the rows.
pub data Stored : Type 0 where
  stored_line : Text → Stored
  stored_table : List Text → List CredRow → Stored

abbrev stored_of : List CredentialMeta → List CredRow → Stored
stored_of [] rows = stored_line (codes "no credentials stored.")
stored_of (c ∷ creds) rows =
    stored_table (codes "Name" ∷ codes "Type" ∷ codes "Added" ∷ [] ∷ []) rows

unfoldable pub stored_view : (ℕ → Text) → Creds → Stored
unfolding cred_rows
stored_view date_short s =
    if s.loading then stored_line (codes "loading…") else stored_of s.creds (cred_rows date_short s)

abbrev header : Text → Text → Option Text → SectionHeader
header index title count = record { index = index; title = title; glyph = none; count = count }

abbrev pub same_kind : CredKind → CredKind → Bool
same_kind https_token https_token = true
same_kind ssh_key ssh_key = true
same_kind https_token ssh_key = false
same_kind ssh_key https_token = false

-- The headers, the table, and the form: the choice of the kind with its hint, the inputs, what was
-- made or went wrong, the button, and the message beside it.
pub record CredsPage : Type 0 where
  pub headers : SectionHeader × SectionHeader
  pub stored : Stored
  pub kind : FieldView × List (Option Text × Text × Bool)
  pub inputs : List (Text × Bool × Text)
  pub notes : Option Text × Option Text
  pub button : ButtonView
  pub status : Option (NoticeKind × Text)

unfoldable pub creds_page : (ℕ → Text) → Creds → CredsPage
unfolding decimal stored_view field_view kind_hint segment_view form_inputs form_notes button_view
    submit_view status_message
creds_page date_short s = record {
  headers = (
    header (codes "01") (codes "Stored")
        (if s.loading then none else some (decimal (length s.creds) ++ codes " credentials")),
    header (codes "02") (codes "Add credential") none,
  );
  stored = stored_view date_short s;
  kind = (
    field_view (codes "type") false none (some (kind_hint s.kind)),
    segment_view same_kind ((https_token, codes "https token") ∷ (ssh_key, codes "ssh key") ∷ [])
        s.kind,
  );
  inputs = form_inputs s;
  notes = form_notes s;
  button = let button = submit_view s in button_view none none none false button.1 none button.0;
  status = status_message s.notice.status;
}
