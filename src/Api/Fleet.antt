-- ===== src/Api/Fleet.antt =====
-- web/src/api.ts: the session, the fleet, its metrics and logs, and the enroll token.
use marshal_pm.Base.{
  ℕ, Bool, Option, none, some, List, [], ◌∷◌, ◌++◌, Text, codes, decimal, if◌then◌else◌, Outcome,
  returned, threw, ◌>>=◌,
}
use marshal_pm.Uri.{encode, search_params}
use marshal_pm.Api.Types.{Agent, AgentMetrics, LogsResponse, ConnectInfo, UpdateStatus}
use marshal_pm.Api.Http.{
  Json, str, post, Response, Fetch, get_request, send, object, is_ok, is_status, nullish,
  unauthorized, optional,
}

-- A 401 throws `unauthorized`; any other reply is read as the JSON that is expected.
abbrev pub read_authorized : {A : Type 0} → Response A → Outcome A
read_authorized r = if is_status 401 r then threw unauthorized else r.json

module _ {N : Type 0} where
  unfoldable pub get_session : Fetch N Text → Outcome (Option Text)
  get_session fetch = do
    r ← fetch (get_request (codes "/api/session"))
    if is_status 200 r then (r.json >>= λ user. returned (some user)) else returned none

  unfoldable pub login : Fetch N (Unit {0}) → Text → Text → Outcome Bool
  login fetch user pass = do
    r ← fetch (
        send post (codes "/api/login")
          (some (object ((codes "User", str user) ∷ (codes "Pass", str pass) ∷ []))))
    returned (is_status 200 r)

  unfoldable pub logout : Fetch N (Unit {0}) → Outcome (Unit {0})
  logout fetch = fetch (send post (codes "/api/logout") none) >>= λ r. returned tt

  unfoldable pub get_fleet : Fetch N (List (Agent N)) → Outcome (List (Agent N))
  get_fleet fetch = fetch (get_request (codes "/api/fleet")) >>= read_authorized

  unfoldable pub get_metrics : Fetch N (List (AgentMetrics N)) → ℕ → Outcome (List (AgentMetrics N))
  get_metrics fetch since_ms =
      fetch (get_request (codes "/api/metrics?since=" ++ decimal since_ms)) >>= read_authorized

  unfoldable pub get_metrics_for_proc :
      Fetch N (List (AgentMetrics N))
      → (agent selector : Text) → (since_ms bucket_ms : ℕ) → Outcome (List (AgentMetrics N))
  get_metrics_for_proc fetch agent selector since_ms bucket_ms =
      let q = search_params (
        (codes "agent", agent)
        ∷ (codes "selector", selector)
        ∷ (codes "since", decimal since_ms)
        ∷ (codes "bucket", decimal bucket_ms)
        ∷ []) in
      fetch (get_request (codes "/api/metrics?" ++ q)) >>= read_authorized

  unfoldable pub get_logs :
      Fetch N LogsResponse
      → (agent selector stream : Text) → (limit after : ℕ) → (q : Text) → Outcome LogsResponse
  get_logs fetch agent selector stream limit after q =
      let params = search_params (
        (codes "agent", agent)
        ∷ (codes "selector", selector)
        ∷ (codes "stream", stream)
        ∷ (codes "limit", decimal limit)
        ∷ (codes "after", decimal after)
        ∷ (codes "q", q)
        ∷ []) in
      fetch (get_request (codes "/api/logs?" ++ params)) >>= read_authorized

  -- `{ counts }`, where the member may be absent.
  unfoldable pub get_log_stats :
      Fetch N (Option (List (Text × ℕ))) → Text → Outcome (List (Text × ℕ))
  get_log_stats fetch agent = do
    name ← encode agent
    r ← fetch (get_request (codes "/api/logstats?agent=" ++ name))
    counts ← read_authorized r
    returned (nullish counts [])

  -- Only what is not empty is sent.
  abbrev pub unless_blank : Text → Option (Json N)
  unless_blank [] = none
  unless_blank (c ∷ s) = some (str (c ∷ s))

  unfoldable pub connect_token : Fetch N ConnectInfo → (address name : Text) → Outcome ConnectInfo
  connect_token fetch address name = do
    r ← fetch (
        send post (codes "/api/fleet/connect-token") (
          some (
            object (
              optional (codes "address") (unless_blank address)
                (optional (codes "name") (unless_blank name) [])))))
    if is_ok r then r.json else threw (codes "connect-token failed: " ++ decimal r.status)

  unfoldable pub get_update : Fetch N UpdateStatus → Outcome UpdateStatus
  get_update fetch = do
    r ← fetch (get_request (codes "/api/update"))
    if is_status 401 r
        then threw unauthorized
        else if is_ok r
        then r.json
        else threw (codes "update " ++ decimal r.status)

-- The link under which a process's log is downloaded.
unfoldable pub logs_download_url : (agent selector stream q : Text) → Text
logs_download_url agent selector stream q =
    codes "/api/logs/download?"
    ++ search_params (
        (codes "agent", agent)
        ∷ (codes "selector", selector)
        ∷ (codes "stream", stream)
        ∷ (codes "q", q)
        ∷ [])
