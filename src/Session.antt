-- ===== src/Session.antt =====
-- web/src/App.tsx, web/src/Login.tsx, web/src/AppShell.tsx and web/src/UpdateBanner.tsx: who is
-- signed in, which page is shown, and what the shell shows around it.
pub mod Banner
pub mod Rail
pub mod Access
pub mod View
pub mod Tests
use marshal_pm.Base.{
  ℕ, ◌+◌, Bool, true, false, not, ◌&&◌, ◌||◌, Option, none, some, List, [], ◌∷◌, ◌++◌, Text, codes,
  has, length, ltb, ◌==◌, if◌then◌else◌, Outcome, returned, threw,
}
use marshal_pm.Router.{Route}
use marshal_pm.Api.Types.{Agent, ErrorsResponse, UpdateStatus}
use marshal_pm.Api.Http.{Fetch}
use marshal_pm.Api.Fleet.{get_session, login}

-- What `App` renders: `authed` is unknown until the session was asked for.
pub data Page : Type 0 where
  loading sign_in : Page
  shell : Text → Route → Page

unfoldable pub context_of : Route → Text
context_of Route.overview = codes "Fleet"
context_of (Route.detail agent proc) = codes "Fleet"
context_of Route.credentials = codes "Credentials"
context_of Route.notifications = codes "Notifications"
context_of Route.errors = codes "Errors"
context_of (Route.logs agent proc) = codes "Logs"

unfoldable pub app_page : Option Bool → Route → Page
unfolding context_of
app_page none route = loading
app_page (some false) route = sign_in
app_page (some true) route = shell (context_of route) route

abbrev is_user : Option Text → Bool
is_user none = false
is_user (some user) = true

-- The effect that asks for the session; a rejected call changes nothing.
unfoldable pub session_done : Outcome (Option Text) → Option Bool → Option Bool
session_done (returned user) authed = some (is_user user)
session_done (threw e) authed = authed

unfoldable pub on_login : Option Bool → Option Bool
on_login authed = some true

unfoldable pub on_logout : Option Bool → Option Bool
on_logout authed = some false

-- The login form. The user's name is fixed.
pub record Login : Type 0 where
  pub pass : Text
  pub error : Text
  pub busy : Bool

unfoldable pub begin_login : Login → Login
begin_login s = record s { error = []; busy = true }

-- After the call, with whether `onLogin` is called.
unfoldable pub end_login : Outcome Bool → Login → Login × Bool
end_login (threw e) s = (s, false)
end_login (returned true) s = (s, true)
end_login (returned false) s =
    (record s { busy = false; error = codes "invalid username or password" }, false)

unfoldable pub submit_login : {N : Type 0} → Fetch N (Unit {0}) → Login → Login × Bool
unfolding begin_login end_login
submit_login fetch s = end_login (login fetch (codes "admin") s.pass) (begin_login s)

-- The poll of the fleet in web/src/Overview.tsx, with whether it signs out: any failure does, unless
-- the page was left meanwhile.
unfoldable pub fleet_tick :
    {N : Type 0}
    → (stopped : Bool) → Outcome (List (Agent N))
    → List (Agent N)
    → List (Agent N) × Bool
fleet_tick true m agents = (agents, false)
fleet_tick false (returned f) agents = (f, false)
fleet_tick false (threw e) agents = (agents, true)

-- The shell's badge, from its own poll, which never signs out.
unfoldable pub badge_tick : (cancelled : Bool) → Outcome ErrorsResponse → ℕ → ℕ
badge_tick true m badge = badge
badge_tick false (returned r) badge = r.cluster.unacknowledged
badge_tick false (threw e) badge = badge

unfoldable pub update_done :
    (cancelled : Bool) → Outcome UpdateStatus → Option UpdateStatus → Option UpdateStatus
update_done true m update = update
update_done false (returned u) update = some u
update_done false (threw e) update = update

-- The browser's storage as the list of the keys that hold "1".
unfoldable pub dismiss_key : Text → Text
dismiss_key latest = codes "marshal.update.dismissed." ++ latest

unfoldable pub relevant : UpdateStatus → Bool
relevant u = u.enabled && (u.outdated || ltb 0 (length u.outdated_agents))

-- The state of a banner that appears, and whether it shows.
unfoldable pub appears_dismissed : List Text → UpdateStatus → Bool
unfolding relevant has dismiss_key
appears_dismissed storage u = relevant u && has (dismiss_key u.latest) storage

unfoldable pub banner_shown : Bool → UpdateStatus → Bool
unfolding relevant
banner_shown dismissed u = relevant u && not dismissed

-- `dismiss`, where the storage may refuse: the storage and the state of the banner.
unfoldable pub dismiss : (refuses : Bool) → UpdateStatus → List Text → List Text × Bool
unfolding dismiss_key
dismiss true u storage = (storage, true)
dismiss false u storage = (dismiss_key u.latest ∷ storage, true)
