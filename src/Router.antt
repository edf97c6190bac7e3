-- ===== src/Router.antt =====
-- web/src/router.ts and web/src/lib/nav.ts: the location's hash as a route, links to routes, and
-- the entry of the navigation rail that a route belongs to.
pub mod RoundTrip
pub mod Parsing
pub mod Tests
use marshal_pm.Base.{
  ℕ, Bool, true, false, ◌&&◌, not, Option, none, some, List, [], ◌∷◌, ◌++◌, Text, codes, text_eq,
  is_blank, split_on, strip_prefix, if◌then◌else◌, Outcome, returned, threw, ◌>>=◌, catch,
}
use marshal_pm.Uri.{encode, decode}

pub data Route : Type 0 where
  overview credentials notifications errors : Route
  detail : (agent proc : Text) → Route
  logs : (agent proc : Option Text) → Route

-- The groups of `/^#\/logs\/([^/]+)\/([^/]+)$/`, from what follows the prefix.
abbrev pub two_segments : List Text → Option (Text × Text)
two_segments (a ∷ p ∷ []) = if not (is_blank a) && not (is_blank p) then some (a, p) else none
two_segments _ = none

-- The groups of `/^#\/a\/([^/]+)\/p\/([^/]+)$/`, from what follows the prefix.
abbrev pub segments_around_p : List Text → Option (Text × Text)
segments_around_p (a ∷ mid ∷ p ∷ []) =
    if text_eq mid (codes "p") && (not (is_blank a) && not (is_blank p)) then some (a, p) else none
segments_around_p _ = none

abbrev match_rest : (List Text → Option (Text × Text)) → Option Text → Option (Text × Text)
match_rest groups none = none
match_rest groups (some rest) = groups (split_on 47 rest)

match_logs : Text → Option (Text × Text)
match_logs hash = match_rest two_segments (strip_prefix (codes "#/logs/") hash)

match_detail : Text → Option (Text × Text)
match_detail hash = match_rest segments_around_p (strip_prefix (codes "#/a/") hash)

abbrev logs_of : Text → Text → Route
logs_of a p = logs (some a) (some p)

-- Both groups of a match, decoded.
abbrev decoded : (Text → Text → Route) → Text × Text → Outcome Route
decoded make (a, p) = decode a >>= λ agent. decode p >>= λ proc. returned (make agent proc)

parse_detail : Option (Text × Text) → Outcome Route
parse_detail none = returned overview
parse_detail (some groups) = decoded detail groups

parse_logs : Option (Text × Text) → Text → Outcome Route
parse_logs none hash = parse_detail (match_detail hash)
parse_logs (some groups) hash = decoded logs_of groups

unfoldable pub parse_hash : Text → Outcome Route
unfolding parse_logs parse_detail match_logs match_detail text_eq strip_prefix
parse_hash hash =
    if text_eq hash (codes "#/errors")
    then returned errors
    else if text_eq hash (codes "#/notifications")
    then returned notifications
    else if text_eq hash (codes "#/credentials")
    then returned credentials
    else if text_eq hash (codes "#/logs")
    then returned (logs none none)
    else parse_logs (match_logs hash) hash

-- `useRoute`: the handler of `hashchange`; if parsing throws, the route stays as it was.
unfoldable pub on_hashchange : Text → Route → Route
unfolding parse_hash
on_hashchange hash route = elim (parse_hash hash) [ returned r ↦ r | threw e ↦ route ]

unfoldable pub proc_href : Text → Text → Outcome Text
proc_href agent proc = do
  a ← encode agent
  p ← encode proc
  returned (codes "#/a/" ++ (a ++ (codes "/p/" ++ p)))

unfoldable pub logs_href : Option Text → Option Text → Outcome Text
logs_href (some agent) (some proc) = do
  a ← encode agent
  p ← encode proc
  returned (codes "#/logs/" ++ (a ++ (codes "/" ++ p)))
logs_href _ _ = returned (codes "#/logs")

pub data NavItem : Type 0 where
  fleet_item errors_item logs_item notif_item creds_item : NavItem

unfoldable pub nav_item_for : Route → NavItem
nav_item_for overview = fleet_item
nav_item_for (detail agent proc) = fleet_item
nav_item_for errors = errors_item
nav_item_for (logs agent proc) = logs_item
nav_item_for notifications = notif_item
nav_item_for credentials = creds_item
