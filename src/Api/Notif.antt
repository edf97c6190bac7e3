-- ===== src/Api/Notif.antt =====
-- web/src/api.ts: the configuration of notifications.
use marshal_pm.Base.{
  Bool, true, false, Option, none, some, List, [], ◌∷◌, ◌++◌, Text, codes, decimal, or_else, trim,
  map, if◌then◌else◌, Outcome, returned, threw, ◌>>=◌,
}
use marshal_pm.Uri.{encode}
use marshal_pm.Api.Types.{NotifRule, NotifSettings, NotifConfig, ControlResult, TestAll}
use marshal_pm.Api.Http.{
  Json, str, num, bool, post, put, delete, Fetch, get_request, send, object, optional, is_ok,
  is_status, error_status, unauthorized,
}
use marshal_pm.Api.Apps.{failed, strings, dictionary, opt_num}

abbrev done : ControlResult
done = record { ok = true; error = none }

abbrev delete_result : Bool → ControlResult
delete_result ok = record { ok = ok; error = none }

module _ {N : Type 0} where
  unfoldable pub get_notifications : Fetch N (NotifConfig N) → Outcome (NotifConfig N)
  get_notifications fetch = do
    r ← fetch (get_request (codes "/api/notifications"))
    if is_status 401 r
        then threw unauthorized
        else if is_status 503 r
        then (r.text >>= λ t. threw (or_else (trim t) (codes "notifications unavailable")))
        else if is_ok r
        then r.json
        else threw (codes "failed to load notifications (" ++ (decimal r.status ++ codes ")"))

  -- A failure's message is the text of the reply.
  unfoldable pub put_channel :
      Fetch N (Unit {0})
      → (name type : Text) → Bool
      → (config secrets : List (Text × Text)) → Outcome ControlResult
  put_channel fetch name type enabled config secrets = do
    r ← fetch (
        send post (codes "/api/notifications/channels") (
          some (
            object (
              (codes "name", str name)
              ∷ (codes "type", str type)
              ∷ (codes "enabled", bool enabled)
              ∷ (codes "config", dictionary config)
              ∷ (codes "secrets", dictionary secrets)
              ∷ []))))
    if is_ok r then returned done else (r.text >>= λ t. returned (failed t))

  unfoldable pub delete_channel : Fetch N (Unit {0}) → Text → Outcome ControlResult
  delete_channel fetch name = do
    path ← encode name
    r ← fetch (send delete (codes "/api/notifications/channels/" ++ path) none)
    returned (delete_result (is_ok r))

  unfoldable pub test_channel : Fetch N ControlResult → Text → Outcome ControlResult
  test_channel fetch name = do
    path ← encode name
    r ← fetch (send post (codes "/api/notifications/channels/" ++ (path ++ codes "/test")) none)
    if is_ok r then r.json else (r.text >>= λ t. returned (failed t))

  unfoldable pub test_all_channels : Fetch N TestAll → Outcome TestAll
  test_all_channels fetch = do
    r ← fetch (send post (codes "/api/notifications/test") none)
    if is_ok r
        then r.json
        else (r.text >>= λ t. returned (record {
          ok = false;
          sent = 0;
          results = [];
          error = some (or_else (trim t) (error_status r.status));
        }))

  unfoldable pub put_rule : Fetch N (Unit {0}) → NotifRule → Outcome ControlResult
  put_rule fetch rule = do
    r ← fetch (
        send post (codes "/api/notifications/rules") (
          some (
            object (
              (codes "name", str rule.name)
              ∷ (codes "enabled", bool rule.enabled)
              ∷ (codes "events", strings rule.events)
              ∷ (codes "agent", str rule.agent)
              ∷ (codes "process", str rule.process)
              ∷ (codes "channels", strings rule.channels)
              ∷ []))))
    if is_ok r then returned done else (r.text >>= λ t. returned (failed t))

  unfoldable pub delete_rule : Fetch N (Unit {0}) → Text → Outcome ControlResult
  delete_rule fetch name = do
    path ← encode name
    r ← fetch (send delete (codes "/api/notifications/rules/" ++ path) none)
    returned (delete_result (is_ok r))

  abbrev opt_bool : Option Bool → Option (Json N)
  opt_bool none = none
  opt_bool (some b) = some (bool b)

  abbrev opt_numbers : Option (List (Text × N)) → Option (Json N)
  opt_numbers none = none
  opt_numbers (some m) = some (object (map (λ kv. (kv.0, num kv.1)) m))

  unfoldable pub put_notif_settings : Fetch N (Unit {0}) → NotifSettings N → Outcome ControlResult
  put_notif_settings fetch s = do
    r ← fetch (
        send put (codes "/api/notifications/settings") (
          some (
            object (
              (codes "cooldown_seconds", num s.cooldown_seconds)
              ∷ optional (codes "suppress_recovery") (opt_bool s.suppress_recovery) (
                  optional (codes "cooldown_overrides") (opt_numbers s.cooldown_overrides) (
                    optional (codes "coalesce_window_seconds") (opt_num s.coalesce_window_seconds)
                      []))))))
    if is_ok r
        then returned done
        else (r.text >>= λ t. returned (failed (or_else (trim t) (error_status r.status))))
