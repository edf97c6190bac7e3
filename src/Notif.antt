-- ===== src/Notif.antt =====
-- web/src/Notifications.tsx: channels, rules and settings of the notifications.
pub mod Channels
pub mod Rules
pub mod Settings
pub mod Forms
pub mod Overrides
pub mod Chips
pub mod Views
pub mod Sections
pub mod Tests
use marshal_pm.Base.{
  Bool, true, false, Option, none, some, List, [], ◌∷◌, Text, codes, text_eq, if◌then◌else◌,
  Outcome, returned, threw,
}
use marshal_pm.Api.Types.{NotifConfig}

abbrev pub event_types : List Text
event_types =
    codes "crash"
    ∷ codes "restart_loop"
    ∷ codes "agent_down"
    ∷ codes "agent_up"
    ∷ codes "deploy_fail"
    ∷ codes "recovered"
    ∷ []

abbrev pub channel_types : List Text
channel_types = codes "webhook" ∷ codes "telegram" ∷ codes "slack" ∷ codes "email" ∷ []

-- `CONFIG_FIELDS` and `SECRET_FIELDS`, which have an entry for each channel type.
unfoldable pub config_fields : Text → List Text
unfolding text_eq
config_fields type =
    if text_eq type (codes "webhook")
    then codes "url" ∷ []
    else if text_eq type (codes "telegram")
    then codes "chat_id" ∷ []
    else if text_eq type (codes "email")
    then codes "host"
      ∷ codes "port"
      ∷ codes "from"
      ∷ codes "to"
      ∷ codes "username"
      ∷ codes "tls"
      ∷ []
    else []

unfoldable pub secret_fields : Text → List Text
unfolding text_eq
secret_fields type =
    if text_eq type (codes "webhook")
    then codes "hmac" ∷ []
    else if text_eq type (codes "telegram")
    then codes "bot_token" ∷ []
    else if text_eq type (codes "slack")
    then codes "webhook_url" ∷ []
    else if text_eq type (codes "email")
    then codes "password" ∷ []
    else []

-- The colours of types and events, `""` for one that has none.
unfoldable pub channel_color : Text → Text
unfolding text_eq
channel_color type =
    if text_eq type (codes "webhook")
    then codes "indigo"
    else if text_eq type (codes "telegram")
    then codes "teal"
    else if text_eq type (codes "slack")
    then codes "sky"
    else if text_eq type (codes "email")
    then codes "amber"
    else []

unfoldable pub event_color : Text → Text
unfolding text_eq
event_color event =
    if text_eq event (codes "crash")
    then codes "rose"
    else if text_eq event (codes "restart_loop")
    then codes "amber"
    else if text_eq event (codes "agent_down")
    then codes "sky"
    else if text_eq event (codes "agent_up")
    then codes "teal"
    else if text_eq event (codes "deploy_fail")
    then codes "indigo"
    else if text_eq event (codes "recovered")
    then codes "olive"
    else []

-- The page: the configuration once it is loaded, and the error of the last load.
pub record Notifications (N : Type 0) : Type 0 where
  pub cfg : Option (NotifConfig N)
  pub err : Text

unfoldable pub reload_done :
    {N : Type 0} → Outcome (NotifConfig N) → Notifications N → Notifications N
reload_done (returned cfg) s = record s { cfg = some cfg; err = [] }
reload_done (threw e) s = record s { err = e }
