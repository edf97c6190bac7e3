-- ===== src/Format/Bounds.antt =====
-- What the texts of `relativeTime` and `formatBytes` say of the numbers that they stand for.
use marshal_pm.Base.{
  zero, suc, ℕ, ◌+◌, ◌-◌, ◌*◌, ◌/◌, ◌%◌, ◌≤◌, ◌<◌, ◌≡◌, ◌≢◌, refl, arith, ◌++◌, Text, codes,
  decimal, ltb, leb, ◌==◌, if◌then◌else◌,
}
use marshal_pm.Format.{relative_time, round_div, tenths_div, fixed1, kib, mib, gib, format_bytes}

-- An age in the unit in which it is shown.
pub data Age : Type 0 where
  secs mins hours days : ℕ → Age
  days_hours : ℕ → ℕ → Age

abbrev pub show_age : Age → Text
show_age (secs n) = decimal n ++ codes "s"
show_age (mins n) = decimal n ++ codes "m"
show_age (hours n) = decimal n ++ codes "h"
show_age (days n) = decimal n ++ codes "d"
show_age (days_hours d h) = decimal d ++ (codes "d " ++ (decimal h ++ codes "h"))

-- The age is the number of seconds rounded down to the unit, in the unit that suits it.
abbrev pub Fits : Age → ℕ → Type 0
Fits (secs n) s = (s ≡ n) × (n < 60)
Fits (mins n) s = (60 * n ≤ s) × (s < 60 * n + 60) × (1 ≤ n) × (n < 60)
Fits (hours n) s = (3600 * n ≤ s) × (s < 3600 * n + 3600) × (1 ≤ n) × (n < 24)
Fits (days n) s = (86400 * n ≤ s) × (s < 86400 * n + 3600) × (1 ≤ n)
Fits (days_hours d h) s =
    (86400 * d + 3600 * h ≤ s) × (s < 86400 * d + 3600 * h + 3600) × (1 ≤ d) × (1 ≤ h) × (h < 24)

age_of : ℕ → Age
age_of s =
    if ltb s 60
    then secs s
    else if ltb s 3600
    then mins (s / 60)
    else if ltb s 86400
    then hours (s / 3600)
    else if s % 86400 / 3600 == 0
    then days (s / 86400)
    else days_hours (s / 86400) (s % 86400 / 3600)

age_of-Fits : (s : ℕ) → Fits (age_of s) s
unfolding age_of
age_of-Fits s = ground arith

relative_time-age_of :
    (unix now_ms : ℕ)
    → unix ≢ 0
    → relative_time unix now_ms ≡ show_age (age_of (now_ms / 1000 - unix))
unfolding relative_time age_of
relative_time-age_of unix now_ms h = ground arith

-- Of a time that is given, `relativeTime` shows the seconds since then, none if it lies ahead,
-- rounded down to seconds, minutes, hours, or days and hours, by how many there are.
pub relative_time-Fits :
    (unix now_ms : ℕ)
    → unix ≢ 0
    → (age : Age) × (relative_time unix now_ms ≡ show_age age) × Fits age (now_ms / 1000 - unix)
relative_time-Fits unix now_ms h =
    let s = now_ms / 1000 - unix in (age_of s, relative_time-age_of unix now_ms h, age_of-Fits s)

-- A size in the unit in which it is shown; `tenths` counts tenths of a GB.
pub data Size : Type 0 where
  bytes kbs mbs tenths : ℕ → Size

abbrev pub show_size : Size → Text
show_size (bytes n) = decimal n ++ codes " B"
show_size (kbs n) = decimal n ++ codes " KB"
show_size (mbs n) = decimal n ++ codes " MB"
show_size (tenths n) = decimal (n / 10) ++ (codes "." ++ decimal (n % 10)) ++ codes " GB"

-- The size is off by half of the last digit at most, in bytes below 1024 of them, in KB from there
-- on, in MB from 1024² bytes on, and in tenths of a GB from 1024³ bytes on.
abbrev pub Near : Size → ℕ → Type 0
Near (bytes v) n = (v ≡ n) × (n < kib)
Near (kbs v) n = (2 * n ≤ kib * (2 * v + 1)) × (kib * (2 * v) ≤ 2 * n + kib) × (kib ≤ n) × (n < mib)
Near (mbs v) n = (2 * n ≤ mib * (2 * v + 1)) × (mib * (2 * v) ≤ 2 * n + mib) × (mib ≤ n) × (n < gib)
Near (tenths v) n = (20 * n ≤ gib * (2 * v + 1)) × (gib * (2 * v) ≤ 20 * n + gib) × (gib ≤ n)

size_of : ℕ → Size
size_of n =
    if leb gib n
    then tenths (tenths_div n gib)
    else if leb mib n
    then mbs (round_div n mib)
    else if leb kib n
    then kbs (round_div n kib)
    else bytes n

size_of-Near : (n : ℕ) → Near (size_of n) n
unfolding size_of
size_of-Near n = ground arith

format_bytes-pos : (n : ℕ) → n ≢ 0 → format_bytes n ≡ show_size (size_of n)
unfolding format_bytes size_of fixed1
format_bytes-pos n h = ground arith

format_bytes-zero : format_bytes 0 ≡ show_size (size_of 0)
unfolding format_bytes size_of decimal
format_bytes-zero = refl

format_bytes-size_of : (n : ℕ) → format_bytes n ≡ show_size (size_of n)
format_bytes-size_of zero = format_bytes-zero
format_bytes-size_of (suc n) = format_bytes-pos (suc n) (λ e. omega arith)

-- `formatBytes` shows a number of bytes, rounded to the nearest, as such below 1024 of them, in KB
-- from there on, in MB from 1024² on, and in tenths of a GB from 1024³ on.
pub format_bytes-Near : (n : ℕ) → (v : Size) × (format_bytes n ≡ show_size v) × Near v n
format_bytes-Near n = (size_of n, format_bytes-size_of n, size_of-Near n)
