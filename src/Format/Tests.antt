-- ===== src/Format/Tests.antt =====
-- A timestamp of a day and an hour ago, and a size of one and a half GB.
use marshal_pm.Base.{◌≡◌}
use marshal_pm.Format.{format_bytes}
use marshal_pm.Format.Bounds.{Size, Near, show_size, format_bytes-Near}

format_bytes-Near_example : (v : Size) × (format_bytes 1610612736 ≡ show_size v) × Near v 1610612736
format_bytes-Near_example = format_bytes-Near 1610612736
