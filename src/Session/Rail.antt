-- ===== src/Session/Rail.antt =====
-- The rail of web/src/AppShell.tsx: its five entries, which is marked, and where they lead.
use marshal_pm.Base.{
  ℕ, ◌≡◌, refl, Bool, true, false, Option, none, some, List, [], ◌∷◌, ◌++◌, Text, codes, map, ltb,
  text_eq, if◌then◌else◌, Outcome, returned,
}
use marshal_pm.Router.{
  Route, NavItem, fleet_item, errors_item, logs_item, notif_item, creds_item, nav_item_for,
  parse_hash, logs_href,
}

abbrev pub same_item : NavItem → NavItem → Bool
same_item fleet_item fleet_item = true
same_item errors_item errors_item = true
same_item logs_item logs_item = true
same_item notif_item notif_item = true
same_item creds_item creds_item = true
same_item _ _ = false

abbrev aria_label : NavItem → Text
aria_label fleet_item = codes "Fleet"
aria_label errors_item = codes "Errors"
aria_label logs_item = codes "Logs"
aria_label notif_item = codes "Notify"
aria_label creds_item = codes "Credentials"

abbrev item_text : NavItem → Text
item_text fleet_item = codes "Fleet"
item_text errors_item = codes "Errors"
item_text logs_item = codes "Logs"
item_text notif_item = codes "Notify"
item_text creds_item = codes "Creds"

unfoldable pub item_link : NavItem → Outcome Text
unfolding logs_href
item_link fleet_item = returned (codes "#/")
item_link errors_item = returned (codes "#/errors")
item_link logs_item = logs_href none none
item_link notif_item = returned (codes "#/notifications")
item_link creds_item = returned (codes "#/credentials")

-- The number on the entry of the errors, unless it is 0.
abbrev item_badge : ℕ → NavItem → Option ℕ
item_badge badge errors_item = if ltb 0 badge then some badge else none
item_badge badge _ = none

pub record RailItem : Type 0 where
  pub label : Text
  pub marked : Bool
  pub class : Text
  pub badge : Option ℕ
  pub text : Text
  pub link : Outcome Text

unfoldable pub rail_item : Route → ℕ → NavItem → RailItem
unfolding nav_item_for item_link
rail_item route badge item =
    let marked = same_item (nav_item_for route) item in
    record {
      label = aria_label item;
      marked = marked;
      class = codes "ri" ++ (if marked then codes " on" else []);
      badge = item_badge badge item;
      text = item_text item;
      link = item_link item;
    }

unfoldable pub rail : Route → ℕ → List RailItem
unfolding rail_item
rail route badge =
    map (rail_item route badge)
      (fleet_item ∷ errors_item ∷ logs_item ∷ notif_item ∷ creds_item ∷ [])

-- Whatever page is shown, a click on an entry of the rail leads to a hash that is parsed to a page,
-- on which that entry and no other is marked.
pub rail_item-parse_hash :
    (route : Route) (badge : ℕ) (item : NavItem)
    → (hash : Text) × (next : Route) × ((rail_item route badge item).link ≡ returned hash)
      × (parse_hash hash ≡ returned next)
      × ((k : NavItem) → (rail_item next badge k).marked ≡ same_item item k)
unfolding rail_item item_link logs_href parse_hash nav_item_for text_eq
rail_item-parse_hash route badge fleet_item = (codes "#/", Route.overview, refl, refl, λ k. refl)
rail_item-parse_hash route badge errors_item =
    (codes "#/errors", Route.errors, refl, refl, λ k. refl)
rail_item-parse_hash route badge logs_item =
    (codes "#/logs", Route.logs none none, refl, refl, λ k. refl)
rail_item-parse_hash route badge notif_item =
    (codes "#/notifications", Route.notifications, refl, refl, λ k. refl)
rail_item-parse_hash route badge creds_item =
    (codes "#/credentials", Route.credentials, refl, refl, λ k. refl)
