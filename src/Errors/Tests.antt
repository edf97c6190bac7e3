-- ===== src/Errors/Tests.antt =====
-- Two errors, the second of them the later one.
use marshal_pm.Api.Http.{Fetch}
use marshal_pm.Api.Errors.{ack_error}
use marshal_pm.Errors.{on_ack_all}
use marshal_pm.Errors.View.{ack_all_view, error_rows, ack_all_view_lem}
use marshal_pm.Samples.{replies}
use marshal_pm.Base.{ℕ, ◌≡◌, ◌⊎◌, refl, true, false, some, none, [], ◌∷◌, Text, codes}
use marshal_pm.Api.Types.{ErrSignature, ErrorsResponse}
use marshal_pm.Errors.{Errors, hours24, most_recent}
use marshal_pm.Errors.Latest.{IsLatest, most_recent-IsLatest}

abbrev signature : Text → ℕ → ErrSignature
signature id last = record {
  id = id;
  sample = codes "TypeError";
  source = some (codes "app.ts");
  agent = codes "a1";
  proc = codes "web";
  affected = codes "web" ∷ [];
  count = 3;
  first_unix = 1;
  last_unix = last;
  buckets = [];
  acknowledged = false;
}

abbrev response : ErrorsResponse
response = record {
  range = codes "24h";
  since = 0;
  now = 100;
  cluster = record {
    errors = 6;
    signatures = 2;
    unacknowledged = 2;
    affected_procs = 1;
    last_error_unix = 90;
  };
  signatures = signature (codes "s1") 50 ∷ signature (codes "s2") 90 ∷ [];
  truncated = false;
}

abbrev page : Errors
page = record { range = hours24; response = some response; err = none; tick = 0; acking = false }

most_recent-IsLatest_example :
    (response.signatures ≡ [])
    ⊎ ((sig : ErrSignature) × (most_recent page ≡ some sig)
        × IsLatest (signature (codes "s1") 50 ∷ signature (codes "s2") 90 ∷ []) sig)
most_recent-IsLatest_example = most_recent-IsLatest page response refl

abbrev taken : Fetch ℕ (Unit {0})
taken = replies 200 tt

ack_all_view_lem_example :
    ((ack_all_view page).number ≡ some 2)
    × ((ack_all_view page).disabled ≡ false)
    × ((on_ack_all taken page).1
        ≡ ack_error taken (codes "s1") true ∷ ack_error taken (codes "s2") true ∷ [])
unfolding error_rows
ack_all_view_lem_example = ack_all_view_lem taken 100000 page refl
