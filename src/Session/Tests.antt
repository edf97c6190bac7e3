-- ===== src/Session/Tests.antt =====
-- A server that refuses the password, one that cannot be reached, and a notice that was dismissed.
use marshal_pm.Base.{ℕ, ◌≡◌, ◌↔◌, true, false, List, [], Text, codes}
use marshal_pm.Api.Types.{Agent, UpdateStatus}
use marshal_pm.Api.Http.{Fetch}
use marshal_pm.Session.{Login, submit_login}
use marshal_pm.Session.Access.{Replied, login_request, submit_login_lem}
use marshal_pm.Samples.{replies, unreachable}

abbrev form : Login
form = record { pass = codes "s3cret"; error = []; busy = false }

abbrev refusing : Fetch ℕ (Unit {0})
refusing = replies 401 tt

submit_login_lem_example :
    (((submit_login refusing form).1 ≡ true)
      ↔ Replied (refusing (login_request (codes "s3cret"))) true)
    × (((submit_login refusing form).0.busy ≡ false)
        ↔ Replied (refusing (login_request (codes "s3cret"))) false)
submit_login_lem_example = submit_login_lem refusing form

abbrev offline : Fetch ℕ (List (Agent ℕ))
offline = unreachable

abbrev release : Text → UpdateStatus
release version = record {
  enabled = true;
  current = codes "1.0";
  latest = version;
  outdated = true;
  checked_at = codes "now";
  outdated_agents = [];
}
