-- ===== src/Notif/Channels.antt =====
-- web/src/Notifications.tsx, `ChannelSection`: the form for a channel, and a channel's actions.
use marshal_pm.Base.{
  Bool, true, false, Option, none, some, List, [], ◌∷◌, ◌++◌, Text, codes, text_eq, is_blank, trim,
  if◌then◌else◌, Outcome, returned, threw, has,
}
use marshal_pm.Api.Types.{ControlResult}
use marshal_pm.Api.Http.{Fetch, nullish}
use marshal_pm.Api.Notif.{put_channel}
use marshal_pm.Ui.Notice.{Notice, success, error, show}
use marshal_pm.Notif.{config_fields, secret_fields}

pub record ChannelForm : Type 0 where
  pub type : Text
  pub name : Text
  pub enabled : Bool
  pub fields : List (Text × Text)
  pub notice : Notice

-- `fields[f]`.
unfoldable pub field_value : Text → List (Text × Text) → Option Text
unfolding text_eq
field_value f [] = none
field_value f ((g, v) ∷ rest) = if text_eq g f then some v else field_value f rest

-- `setFields({ ...fields, [f]: value })`.
unfoldable pub set_field : Text → Text → List (Text × Text) → List (Text × Text)
unfolding text_eq
set_field f v [] = (f, v) ∷ []
set_field f v ((g, w) ∷ rest) = if text_eq g f then (g, v) ∷ rest else (g, w) ∷ set_field f v rest

-- The two loops of `submit`: every field of the type, and the secrets that were typed in.
unfoldable pub config_of : List (Text × Text) → List Text → List (Text × Text)
unfolding field_value
config_of fields [] = []
config_of fields (f ∷ fs) = (f, nullish (field_value f fields) []) ∷ config_of fields fs

abbrev pub secret_entry : Text → Option Text → List (Text × Text)
secret_entry f none = []
secret_entry f (some []) = []
secret_entry f (some (c ∷ v)) = (f, c ∷ v) ∷ []

unfoldable pub secrets_of : List (Text × Text) → List Text → List (Text × Text)
unfolding field_value
secrets_of fields [] = []
secrets_of fields (f ∷ fs) = secret_entry f (field_value f fields) ++ secrets_of fields fs

-- After the call: the form is emptied, and the page reloads, if the channel was saved.
unfoldable pub channel_saved : Outcome ControlResult → ChannelForm → ChannelForm × Bool
unfolding show
channel_saved (threw e) s = (s, false)
channel_saved (returned res) s =
    if res.ok
    then (record s { notice = show success (codes "saved") s.notice; name = []; fields = [] }, true)
    else (record s { notice = show error (nullish res.error (codes "error")) s.notice }, false)

-- The type is chosen: the fields of the other type are forgotten.
unfoldable pub set_type : Text → ChannelForm → ChannelForm
set_type type s = record s { type = type; fields = [] }

unfoldable pub channel_reason : ChannelForm → Option Text
unfolding trim
channel_reason s =
    if is_blank (trim s.name) then some (codes "Enter a channel name first") else none

-- Whether a field is typed in as a password.
unfoldable pub is_secret : Text → Text → Bool
unfolding secret_fields has
is_secret type f = has f (secret_fields type)

-- The action `test` of a row.
unfoldable pub channel_tested : Outcome ControlResult → ChannelForm → ChannelForm
unfolding show
channel_tested (threw e) s = s
channel_tested (returned r) s =
    if r.ok
    then record s { notice = show success (codes "test sent") s.notice }
    else record s { notice = show error (nullish r.error (codes "test failed")) s.notice }

-- The action `delete` of a row reloads the page when the call returned, whatever it returned.
unfoldable pub channel_deleted : Outcome ControlResult → Bool
channel_deleted (returned r) = true
channel_deleted (threw e) = false

module _ {N : Type 0} (fetch : Fetch N (Unit {0})) where
  pub submit_channel : ChannelForm → ChannelForm × Bool
  submit_channel s =
      channel_saved
        (put_channel fetch s.name s.type s.enabled (config_of s.fields (config_fields s.type))
          (secrets_of s.fields (secret_fields s.type)))
        s
