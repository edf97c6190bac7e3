-- ===== src/Notif/Settings.antt =====
-- web/src/Notifications.tsx, `SettingsSection`: the settings' form. A number's text is `String(n)`,
-- the parameter `show_num`; `F.parse` is `Number(text)`.
use marshal_pm.Base.{
  ℕ, Bool, true, false, not, ◌||◌, Option, none, some, List, [], ◌∷◌, ◌++◌, Text, codes, decimal,
  text_eq, is_blank, select, length, map, join, Floats, ◌==◌, if◌then◌else◌, Outcome, returned,
  threw,
}
use marshal_pm.Api.Types.{NotifChannel, NotifSettings, ControlResult, TestAll, TestAllResult}
use marshal_pm.Api.Http.{Fetch, nullish}
use marshal_pm.Api.Notif.{put_notif_settings}
use marshal_pm.Ui.Notice.{Notice, success, error, show, no_notice}
use marshal_pm.Notif.{event_types}
use marshal_pm.Notif.Channels.{field_value, set_field}

pub record SettingsForm (N : Type 0) : Type 0 where
  pub cooldown : N
  pub recovery : Bool
  pub coalesce : N
  pub overrides : List (Text × Text)
  pub notice : Notice
  pub testing : Bool

unfoldable pub override_value : {N : Type 0} → Text → List (Text × N) → Option N
unfolding text_eq
override_value ev [] = none
override_value ev ((j, v) ∷ rest) = if text_eq j ev then some v else override_value ev rest

module _ (F : Floats) (show_num : F.Num → Text) where
  open F use {Num, of_nat, parse}

  abbrev pub override_text : Option Num → Text
  override_text none = []
  override_text (some v) = show_num v

  -- The text of each event's override, empty where it has none.
  unfoldable pub init_overrides : List Text → List (Text × Num) → List (Text × Text)
  init_overrides [] given = []
  init_overrides (ev ∷ evs) given =
      (ev, override_text (override_value ev given)) ∷ init_overrides evs given

  unfoldable pub init_settings : NotifSettings Num → SettingsForm Num
  init_settings s = record {
    cooldown = s.cooldown_seconds;
    recovery = not (nullish s.suppress_recovery false);
    coalesce = nullish s.coalesce_window_seconds (of_nat 10);
    overrides = init_overrides event_types (nullish s.cooldown_overrides []);
    notice = no_notice;
    testing = false;
  }

  -- An override is sent if its text is not empty.
  abbrev pub sent_override : Text → Text → List (Text × Num)
  sent_override ev [] = []
  sent_override ev (c ∷ t) = (ev, parse (c ∷ t)) ∷ []

  unfoldable pub sent_overrides : List Text → List (Text × Text) → List (Text × Num)
  sent_overrides [] texts = []
  sent_overrides (ev ∷ evs) texts =
      sent_override ev (nullish (field_value ev texts) []) ++ sent_overrides evs texts

  unfoldable pub settings_of : SettingsForm Num → NotifSettings Num
  settings_of s = record {
    cooldown_seconds = s.cooldown;
    suppress_recovery = some (not s.recovery);
    cooldown_overrides = some (sent_overrides event_types s.overrides);
    coalesce_window_seconds = some s.coalesce;
  }

  unfoldable pub settings_saved : Outcome ControlResult → SettingsForm Num → SettingsForm Num × Bool
  unfolding show
  settings_saved (threw e) s = (s, false)
  settings_saved (returned res) s =
      if res.ok then (record s { notice = show success (codes "saved") s.notice }, true) else (
        record s { notice = show error (nullish res.error (codes "save failed")) s.notice },
        false,
      )

  pub save_settings : Fetch Num (Unit {0}) → SettingsForm Num → SettingsForm Num × Bool
  save_settings fetch s = settings_saved (put_notif_settings fetch (settings_of s)) s

  unfoldable pub set_override : Text → Text → SettingsForm Num → SettingsForm Num
  unfolding set_field
  set_override ev text s = record s { overrides = set_field ev text s.overrides }

-- The channels that a test goes to, and whether its button is enabled.
unfoldable pub enabled_count : List NotifChannel → ℕ
enabled_count channels = length (select (λ c. c.enabled) channels)

unfoldable pub test_disabled : Bool → List NotifChannel → Bool
unfolding enabled_count
test_disabled testing channels = testing || enabled_count channels == 0

-- What a test reports: its kind of message and its text.
abbrev error_of : TestAllResult → Text
error_of f = f.name ++ (codes ": " ++ nullish f.error (codes "undefined"))

abbrev plural : ℕ → Text
plural n = if n == 1 then [] else codes "s"

abbrev report_results : TestAll → List TestAllResult → Notice → Notice
report_results r [] n =
    show success (codes "test sent to " ++ (decimal r.sent ++ (codes " channel" ++ plural r.sent)))
      n
report_results r (f ∷ fs) n =
    show error (decimal r.sent ++ (codes " sent · " ++ join (codes "; ") (map error_of (f ∷ fs)))) n

abbrev report_answered : TestAll → List TestAllResult → Notice → Notice
report_answered r [] n = show error (codes "no enabled channels to test") n
report_answered r (x ∷ xs) n = report_results r (select (λ f. not f.ok) (x ∷ xs)) n

unfoldable pub report : TestAll → Notice → Notice
unfolding show
report r n =
    if is_blank (nullish r.error [])
    then report_answered r r.results n
    else show error (nullish r.error []) n

-- `sendTest`: `testing` ends also where the call was rejected.
unfoldable pub begin_test : {N : Type 0} → SettingsForm N → SettingsForm N
begin_test s = record s { testing = true }

unfoldable pub end_test : {N : Type 0} → Outcome TestAll → SettingsForm N → SettingsForm N
unfolding report
end_test (returned r) s = record s { notice = report r s.notice; testing = false }
end_test (threw e) s = record s { testing = false }
