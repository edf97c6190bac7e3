-- ===== src/Notif/Rules.antt =====
-- web/src/Notifications.tsx, `RuleSection`: the form for a rule.
use marshal_pm.Base.{
  Bool, true, false, not, Option, none, some, List, [], ◌∷◌, ◌++◌, Text, codes, text_eq, is_blank,
  trim, has, select, if◌then◌else◌, Outcome, returned, threw, join, or_else,
}
use marshal_pm.Api.Types.{NotifRule, ControlResult}
use marshal_pm.Api.Http.{Fetch, nullish}
use marshal_pm.Api.Notif.{put_rule}
use marshal_pm.Ui.Notice.{Notice, success, error, show}

pub record RuleForm : Type 0 where
  pub name : Text
  pub events : List Text
  pub agent : Text
  pub process : Text
  pub chans : List Text
  pub notice : Notice

-- `toggle`: the value is taken out of the list, or put at its end.
unfoldable pub toggle : List Text → Text → List Text
unfolding text_eq has
toggle list v = if has v list then select (λ x. not (text_eq x v)) list else list ++ (v ∷ [])

unfoldable pub rule_of : RuleForm → NotifRule
rule_of s = record {
  name = s.name;
  enabled = true;
  events = s.events;
  agent = s.agent;
  process = s.process;
  channels = s.chans;
}

-- After the call: the name, the events and the channels are emptied, and the page reloads.
unfoldable pub rule_saved : Outcome ControlResult → RuleForm → RuleForm × Bool
unfolding show
rule_saved (threw e) s = (s, false)
rule_saved (returned res) s =
    if res.ok
    then (
      record s {
        notice = show success (codes "saved") s.notice;
        name = [];
        events = [];
        chans = [];
      },
      true,
    )
    else (record s { notice = show error (nullish res.error (codes "error")) s.notice }, false)

unfoldable pub rule_reason : RuleForm → Option Text
unfolding trim
rule_reason s = if is_blank (trim s.name) then some (codes "Enter a rule name first") else none

-- What a row shows as the target and the channels of a rule.
unfoldable pub rule_target : NotifRule → Text
rule_target r = or_else r.agent (codes "*") ++ (codes " / " ++ or_else r.process (codes "*"))

unfoldable pub rule_channels : NotifRule → Text
unfolding join
rule_channels r = or_else (join (codes ", ") r.channels) (codes "—")

module _ {N : Type 0} (fetch : Fetch N (Unit {0})) where
  pub submit_rule : RuleForm → RuleForm × Bool
  submit_rule s = rule_saved (put_rule fetch (rule_of s)) s
