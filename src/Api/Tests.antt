-- ===== src/Api/Tests.antt =====
-- A server that cannot be reached, and a reply to a commit.
use marshal_pm.Base.{ℕ, ◌≡◌, ◌↔◌, ◌⊎◌, false, none, ◌==◌, Text, codes, returned, threw}
use marshal_pm.Api.Types.{ControlResult, CommitResult}
use marshal_pm.Api.Http.{Fetch, Response}
use marshal_pm.Api.Apps.{restart, control}
use marshal_pm.Api.Laws.{control_request, control_threw}
use marshal_pm.Samples.{unreachable, commit}

abbrev offline : Fetch ℕ ControlResult
offline = unreachable

control_threw_example :
    (((e : Text) × (control offline (codes "a1") (codes "web") restart ≡ threw e)) ↔ (
      ((e : Text) × (offline (control_request (codes "a1") (codes "web") restart) ≡ threw e))
      ⊎ ((r : Response ControlResult) × (offline
              (control_request (codes "a1") (codes "web") restart)
            ≡ returned r)
          × (r.status ≡ 200)
          × (e : Text) × (r.json ≡ threw e))))
    × ((r : Response ControlResult)
        → offline (control_request (codes "a1") (codes "web") restart) ≡ returned r
        → (r.status == 200) ≡ false
        → (res : ControlResult) × (control offline (codes "a1") (codes "web") restart
            ≡ returned res)
          × (res.ok ≡ false))
control_threw_example = control_threw offline (codes "a1") (codes "web") restart

abbrev reply : Response CommitResult
reply = record {
  status = 201;
  json = returned commit;
  error_field = returned none;
  text = returned (codes "");
}
