-- ===== src/Format.antt =====
-- web/src/lib/format.ts: ages and sizes as text. Times are whole seconds, and the current time is
-- whole milliseconds, so that the difference rounded down is computed on integers. Sizes are whole
-- bytes: a quotient by a power of 1024 is exact in a double, and so is its rounding here.
pub mod Bounds
pub mod Tests
use marshal_pm.Base.{
  ℕ, ◌+◌, ◌-◌, ◌*◌, ◌/◌, ◌%◌, ◌^◌, List, [], ◌∷◌, ◌++◌, Text, codes, decimal, ltb, leb, ◌==◌,
  if◌then◌else◌,
}

abbrev pub dash : Text
dash = codes "—"

-- `Math.max(0, Math.floor(nowSec - unixSec))`: on ℕ the difference stops at 0.
abbrev pub age_seconds : (unix now_ms : ℕ) → ℕ
age_seconds unix now_ms = now_ms / 1000 - unix

unfoldable pub relative_time : (unix now_ms : ℕ) → Text
relative_time unix now_ms =
    let s = age_seconds unix now_ms in
    let d = s / 86400 in
    let h = s % 86400 / 3600 in
    if unix == 0
    then dash
    else if ltb s 60
    then decimal s ++ codes "s"
    else if ltb s 3600
    then decimal (s / 60) ++ codes "m"
    else if ltb s 86400
    then decimal (s / 3600) ++ codes "h"
    else if h == 0
    then decimal d ++ codes "d"
    else decimal d ++ (codes "d " ++ (decimal h ++ codes "h"))

-- `Math.round(n / d)`, and ten times `(n / d).toFixed(1)`: both round a half up.
abbrev pub round_div : ℕ → ℕ → ℕ
round_div n d = (2 * n + d) / (2 * d)

abbrev pub tenths_div : ℕ → ℕ → ℕ
tenths_div n d = round_div (10 * n) d

-- A number of tenths with one decimal.
unfoldable pub fixed1 : ℕ → Text
fixed1 t = decimal (t / 10) ++ (codes "." ++ decimal (t % 10))

abbrev pub kib : ℕ
kib = 1024

abbrev pub mib : ℕ
mib = 1048576

abbrev pub gib : ℕ
gib = 1073741824

unfoldable pub format_bytes : ℕ → Text
format_bytes n =
    if n == 0
    then codes "0 B"
    else if leb gib n
    then fixed1 (tenths_div n gib) ++ codes " GB"
    else if leb mib n
    then decimal (round_div n mib) ++ codes " MB"
    else if leb kib n
    then decimal (round_div n kib) ++ codes " KB"
    else decimal n ++ codes " B"
