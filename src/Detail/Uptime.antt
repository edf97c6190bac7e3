-- ===== src/Detail/Uptime.antt =====
-- When a process began, on the page of the fleet and on its own.
use marshal_pm.Base.{ℕ, ◌+◌, ◌/◌, ◌≡◌, ◌≤◌, ◌<◌, arith, some}
use marshal_pm.Api.Types.{Proc}
use marshal_pm.Format.{age_seconds}
use marshal_pm.Overview.Rows
use marshal_pm.Detail.Cells

-- Of a process that has run for some time, but not since before 1970: the uptime that its own page
-- shows, in seconds, is that of the fleet's page or one more, and that of the fleet's page is the
-- uptime rounded down.
pub age_seconds-began :
    {N : Type 0} (now_ms : ℕ) (p : Proc N)
    → 0 < p.uptime_ms
    → p.uptime_ms ≤ now_ms
    → (age_seconds (Rows.began now_ms p) now_ms ≡ p.uptime_ms / 1000)
      × (p.uptime_ms / 1000 ≤ age_seconds (Cells.began now_ms (some p)) now_ms)
      × (age_seconds (Cells.began now_ms (some p)) now_ms ≤ p.uptime_ms / 1000 + 1)
age_seconds-began now_ms p runs since = ground arith
