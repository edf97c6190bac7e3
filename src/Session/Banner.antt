-- ===== src/Session/Banner.antt =====
-- For which releases a dismissed notice comes back.
use marshal_pm.Base.{◌≡◌, refl, arith, false, not, ◌&&◌, List, Text, text_eq, has}
use marshal_pm.Api.Types.{UpdateStatus}
use marshal_pm.Session.{dismiss_key, appears_dismissed, banner_shown, dismiss}

text_eq-dismiss_key : (a b : Text) → text_eq (dismiss_key a) (dismiss_key b) ≡ text_eq a b
unfolding dismiss_key text_eq
text_eq-dismiss_key a b = refl

-- Once the notice of one release was dismissed, a banner that appears for some release shows exactly
-- where it is relevant, is about another release, and was shown before.
pub banner_shown-dismiss :
    (u v : UpdateStatus) (storage : List Text)
    → banner_shown (appears_dismissed (dismiss false u storage).0 v) v
      ≡ (not (text_eq u.latest v.latest) && banner_shown (appears_dismissed storage v) v)
unfolding banner_shown appears_dismissed dismiss has
banner_shown-dismiss u v storage = ground (arith, text_eq-dismiss_key u.latest v.latest)
