-- ===== src/Notif/Sections.antt =====
-- The three sections of web/src/Notifications.tsx as a whole: the header, the rows with their
-- buttons, the form, and the buttons below it. `show` is `String` of a number.
use marshal_pm.Base.{
  Bool, true, false, Option, none, some, List, [], ◌∷◌, Text, codes, map, if◌then◌else◌,
}
use marshal_pm.Api.Types.{NotifConfig, NotifChannel, NotifRule}
use marshal_pm.Ui.Notice.{NoticeKind, status_message}
use marshal_pm.Ui.Ledger.{SectionHeader, EmptyState, QuickAction}
use marshal_pm.Ui.Controls.{FieldView, field_view, toggle_view, chip_view, ButtonView, button_view}
use marshal_pm.Notif.{channel_types}
use marshal_pm.Notif.Channels.{ChannelForm, channel_reason}
use marshal_pm.Notif.Rules.{RuleForm, rule_reason}
use marshal_pm.Notif.Settings.{SettingsForm}
use marshal_pm.Notif.Views.{
  ChannelRow, channel_row, channels_count, no_channels, FieldInput, field_inputs, RuleRow, rule_row,
  rules_count, no_rules, event_chips, channel_chips, override_inputs, test_button,
}

-- An `Input`: its placeholder, its type where one is given, and its value.
pub record TextInput : Type 0 where
  pub placeholder : Option Text
  pub type : Option Text
  pub value : Text

abbrev pub text_input : (placeholder value : Text) → TextInput
text_input placeholder value = record { placeholder = some placeholder; type = none; value = value }

abbrev pub labelled : Text → FieldView
labelled label = field_view label false none none

-- What the buttons of the rows do, each to the channel or the rule of this name.
pub data RowAction : Type 0 where
  test_channel delete_channel delete_rule : Text → RowAction

abbrev pub delete_action : RowAction → QuickAction RowAction
delete_action act = record {
  icon = codes "✕";
  label = codes "delete";
  variant = some (codes "dgr");
  on_click = act;
}

unfoldable pub channel_actions : NotifChannel → List (QuickAction RowAction)
channel_actions c =
    (record {
      icon = codes "◎";
      label = codes "test";
      variant = none;
      on_click = test_channel c.name;
    })
    ∷ delete_action (delete_channel c.name)
    ∷ []

unfoldable pub rule_actions : NotifRule → List (QuickAction RowAction)
rule_actions r = delete_action (delete_rule r.name) ∷ []

abbrev pub section_header : (index title : Text) → Option Text → SectionHeader
section_header index title count = record {
  index = index;
  title = title;
  glyph = none;
  count = count;
}

-- The captions of a table, which stand above rows only.
abbrev captions_for : {R : Type 0} → List R → List Text → List Text
captions_for [] captions = []
captions_for (r ∷ rows) captions = captions

abbrev pub field_of : FieldInput → FieldView × TextInput
field_of i = (
  labelled i.label,
  record {
    placeholder = some i.label;
    type = some (if i.hidden then codes "password" else codes "text");
    value = i.value;
  },
)

pub record ChannelSection : Type 0 where
  pub header : SectionHeader
  pub empty : Option EmptyState
  pub captions : List Text
  pub rows : List (ChannelRow × List (QuickAction RowAction))
  pub type : FieldView × Text × List Text
  pub name : FieldView × TextInput
  pub enabled : Text × Bool × Option (Option Text × Option Text)
  pub fields : List (FieldView × TextInput)
  pub button : ButtonView
  pub status : Option (NoticeKind × Text)

unfoldable pub channel_section : {N : Type 0} → NotifConfig N → ChannelForm → ChannelSection
unfolding channels_count no_channels channel_row channel_actions field_view toggle_view field_inputs
    button_view channel_reason status_message
channel_section cfg s = record {
  header = section_header (codes "01") (codes "Channels") (some (channels_count cfg));
  empty = no_channels cfg.channels;
  captions =
      captions_for cfg.channels
        (codes "Name" ∷ codes "Type" ∷ codes "State" ∷ codes "Secret" ∷ codes "Actions" ∷ []);
  rows = map (λ c. (channel_row c, channel_actions c)) cfg.channels;
  type = (labelled (codes "type"), s.type, channel_types);
  name = (
    field_view (codes "name") true none
        (some (codes "A label for this channel, e.g. tgbot — separate from the bot token")),
    text_input (codes "channel-name") s.name,
  );
  enabled = toggle_view s.enabled (some (codes "Enabled")) none;
  fields = map field_of (field_inputs s);
  button = button_view none none none false (channel_reason s) none (codes "Add channel");
  status = status_message s.notice.status;
}

pub record RuleSection : Type 0 where
  pub header : SectionHeader
  pub empty : Option EmptyState
  pub captions : List Text
  pub rows : List (RuleRow × List (QuickAction RowAction))
  pub name : FieldView × TextInput
  pub target : FieldView × TextInput × TextInput
  pub events : Text × List (Text × Text × Bool)
  pub channels : Option (Text × List (Text × Text × Bool))
  pub button : ButtonView
  pub status : Option (NoticeKind × Text)

abbrev chips : List (Text × Bool) → List (Text × Text × Bool)
chips labels = map (λ c. chip_view c.0 c.1) labels

-- The chips of the channels, where there are channels.
abbrev channel_choice :
    List NotifChannel → List (Text × Bool) → Option (Text × List (Text × Text × Bool))
channel_choice [] labels = none
channel_choice (c ∷ channels) labels = some (codes "channels", chips labels)

unfoldable pub rule_section : {N : Type 0} → NotifConfig N → RuleForm → RuleSection
unfolding rules_count no_rules rule_row rule_actions field_view chip_view event_chips channel_chips
    button_view rule_reason status_message
rule_section cfg s = record {
  header = section_header (codes "02") (codes "Rules") (some (rules_count cfg));
  empty = no_rules cfg.rules;
  captions =
      captions_for cfg.rules
        (codes "Name" ∷ codes "Events" ∷ codes "Target" ∷ codes "Channels" ∷ [] ∷ []);
  rows = map (λ r. (rule_row r, rule_actions r)) cfg.rules;
  name = (labelled (codes "rule name"), text_input (codes "my-rule") s.name);
  target = (
    labelled (codes "target (agent / process)"),
    text_input (codes "agent (*)") s.agent,
    text_input (codes "process (*)") s.process,
  );
  events = (codes "events", chips (event_chips s));
  channels = channel_choice cfg.channels (channel_chips cfg s);
  button = button_view none none none false (rule_reason s) none (codes "Add rule");
  status = status_message s.notice.status;
}

pub record SettingsSection : Type 0 where
  pub header : SectionHeader
  pub recovery : Text × Bool × Option (Option Text × Option Text)
  pub numbers : List (FieldView × TextInput)
  pub overrides : Text × List (FieldView × TextInput)
  pub buttons : List ButtonView
  pub status : Option (NoticeKind × Text)

abbrev number_input : Option Text → Text → TextInput
number_input placeholder value = record {
  placeholder = placeholder;
  type = some (codes "number");
  value = value;
}

module _ {N : Type 0} (show : N → Text) where
  unfoldable pub settings_section : NotifConfig N → SettingsForm N → SettingsSection
  unfolding toggle_view field_view override_inputs button_view test_button status_message
  settings_section cfg s =
      let test = test_button cfg s in
      record {
        header = section_header (codes "03") (codes "Settings") none;
        recovery =
            toggle_view s.recovery (some (codes "Send recovery notices"))
              (some (codes "Notify when a crashed process or downed agent comes back."));
        numbers =
            (labelled (codes "Global cooldown (seconds)"), number_input none (show s.cooldown))
            ∷ (
              labelled (codes "Coalesce window (sec · 0 = off)"),
              number_input none (show s.coalesce),
            )
            ∷ [];
        overrides = (
          codes "Per-event cooldown overrides",
          map (λ i. (labelled i.0, number_input (some i.1) i.2)) (override_inputs show s),
        );
        buttons =
            button_view none none none false none none (codes "save settings")
            ∷ button_view none none none test.2 none (some test.1) test.0
            ∷ [];
        status = status_message s.notice.status;
      }
