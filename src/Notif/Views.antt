-- ===== src/Notif/Views.antt =====
-- What the sections of web/src/Notifications.tsx show of the configuration and of their forms.
use marshal_pm.Base.{
  Bool, Option, none, some, List, [], ◌∷◌, ◌++◌, Text, codes, decimal, has, map, length, is_blank,
  ◌==◌, if◌then◌else◌,
}
use marshal_pm.Api.Types.{NotifConfig, NotifChannel, NotifRule}
use marshal_pm.Api.Http.{nullish}
use marshal_pm.Notif.{
  Notifications, event_types, config_fields, secret_fields, channel_color, event_color,
}
use marshal_pm.Notif.Channels.{ChannelForm, field_value, is_secret}
use marshal_pm.Notif.Rules.{RuleForm, rule_target, rule_channels}
use marshal_pm.Notif.Settings.{SettingsForm, enabled_count, test_disabled}
use marshal_pm.Ui.Ledger.{EmptyState}

-- The page: a line in its place until it is loaded, else the line above its sections, if any.
pub data PageView (N : Type 0) : Type 0 where
  waiting : Text → PageView N
  loaded : Option Text → NotifConfig N → PageView N

abbrev error_line : Text → Option Text
error_line e = if is_blank e then none else some e

abbrev page_of : {N : Type 0} → Text → Option (NotifConfig N) → PageView N
page_of err none = waiting (if is_blank err then codes "Loading…" else codes "Error: " ++ err)
page_of err (some cfg) = loaded (error_line err) cfg

unfoldable pub page_view : {N : Type 0} → Notifications N → PageView N
page_view s = page_of s.err s.cfg

pub record ChannelRow : Type 0 where
  pub name : Text
  pub type_class : Text
  pub type : Text
  pub square : Text
  pub state_class : Text
  pub state : Text
  pub secret_class : Text
  pub secret : Text

unfoldable pub channel_row : NotifChannel → ChannelRow
unfolding channel_color
channel_row c = record {
  name = c.name;
  type_class = codes "v " ++ channel_color c.type;
  type = c.type;
  square = codes "sq " ++ (if c.enabled then codes "on" else codes "st");
  state_class = if c.enabled then codes "on-t" else codes "stp-t";
  state = if c.enabled then codes "enabled" else codes "disabled";
  secret_class = if c.has_secret then codes "v olive" else codes "v";
  secret = if c.has_secret then codes "🔒 set" else codes "—";
}

unfoldable pub channels_count : {N : Type 0} → NotifConfig N → Text
unfolding decimal
channels_count cfg = decimal (length cfg.channels) ++ codes " configured"

unfoldable pub no_channels : List NotifChannel → Option EmptyState
no_channels [] = some (record {
  message = codes "No channels yet — fill the form below and click Add channel.";
  action = none;
})
no_channels (c ∷ channels) = none

-- An input of the form: its label, whether what is typed is hidden, and its value.
pub record FieldInput : Type 0 where
  pub label : Text
  pub hidden : Bool
  pub value : Text

unfoldable pub field_inputs : ChannelForm → List FieldInput
unfolding config_fields secret_fields is_secret field_value
field_inputs s =
    map
      (λ f. record {
        label = f;
        hidden = is_secret s.type f;
        value = nullish (field_value f s.fields) [];
      })
      (config_fields s.type ++ secret_fields s.type)

pub record RuleRow : Type 0 where
  pub name : Text
  pub events : List (Text × Text)
  pub target : Text
  pub channels : Text

-- The events of a rule, each with its class, or that it takes any.
abbrev event_spans : List Text → List (Text × Text)
event_spans [] = ([], codes "any") ∷ []
event_spans (ev ∷ evs) = map (λ e. (event_color e, e)) (ev ∷ evs)

unfoldable pub rule_row : NotifRule → RuleRow
unfolding event_color rule_target rule_channels
rule_row r = record {
  name = r.name;
  events = event_spans r.events;
  target = rule_target r;
  channels = rule_channels r;
}

unfoldable pub rules_count : {N : Type 0} → NotifConfig N → Text
unfolding decimal
rules_count cfg =
    let n = length cfg.rules in decimal n ++ (codes " rule" ++ (if n == 1 then [] else codes "s"))

unfoldable pub no_rules : List NotifRule → Option EmptyState
no_rules [] = some (record {
  message = codes "No rules yet — events won't notify until a rule routes them to a channel.";
  action = none;
})
no_rules (r ∷ rules) = none

-- The chips of the form: each event, and each channel, with whether it is chosen.
unfoldable pub event_chips : RuleForm → List (Text × Bool)
unfolding has
event_chips s = map (λ ev. (ev, has ev s.events)) event_types

unfoldable pub channel_chips : {N : Type 0} → NotifConfig N → RuleForm → List (Text × Bool)
unfolding has
channel_chips cfg s = map (λ c. (c.name, has c.name s.chans)) cfg.channels

-- The inputs of the overrides: the event, the placeholder, and the value; `show` is `String`.
unfoldable pub override_inputs :
    {N : Type 0} → (N → Text) → SettingsForm N → List (Text × Text × Text)
unfolding field_value
override_inputs show s =
    map (λ ev. (ev, show s.cooldown ++ codes " (global)", nullish (field_value ev s.overrides) []))
      event_types

-- The button of the test: its text, its title, and whether it is disabled.
unfoldable pub test_button : {N : Type 0} → NotifConfig N → SettingsForm N → Text × Text × Bool
unfolding enabled_count test_disabled
test_button cfg s = (
  (if s.testing then codes "sending…" else codes "send test notification"),
  (if enabled_count cfg.channels == 0
      then codes "no enabled channels"
      else codes "send a test notification to all enabled channels"),
  test_disabled s.testing cfg.channels,
)
