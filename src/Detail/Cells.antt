-- ===== src/Detail/Cells.antt =====
-- The figures of web/src/ProcessDetail.tsx, its tabs, and the last lines of its log. Times are whole
-- milliseconds, and their differences are exact, where the page's may be rounded in the last digit.
-- `date_short` is `formatDateShort` of web/src/lib/format.ts, and `local_time` the locale's time of
-- day.
use marshal_pm.Base.{
  ℕ, ◌-◌, ◌*◌, ◌/◌, ◌==◌, Bool, true, false, Option, none, some, List, [], ◌∷◌, ◌++◌, Text, codes,
  decimal, find, map, length, drop, Floats, ltb, if◌then◌else◌,
}
use marshal_pm.Api.Types.{Proc, Bucket, LogLine}
use marshal_pm.Detail.{Detail, Tail, show_files}
use marshal_pm.Format.{dash, relative_time, fixed1, tenths_div, mib}
use marshal_pm.Ui.Ledger.{Cell, EmptyState}

-- The windows of the charts: the label, and the milliseconds.
abbrev pub windows : List (Text × ℕ)
windows =
    (codes "15m", 15 * 60 * 1000)
    ∷ (codes "1h", 60 * 60 * 1000)
    ∷ (codes "6h", 6 * 60 * 60 * 1000)
    ∷ []

abbrev label_of : Option (Text × ℕ) → Text
label_of none = []
label_of (some w) = w.0

unfoldable pub window_label : ℕ → Text
window_label window_ms = label_of (find (λ w. w.1 == window_ms) windows)

-- `mib`.
unfoldable pub mib_text : ℕ → Text
unfolding fixed1
mib_text b = if b == 0 then dash else fixed1 (tenths_div b mib)

-- When the process began, in seconds, or 0 if it does not run.
abbrev pub began : {N : Type 0} → ℕ → Option (Proc N) → ℕ
began now_ms none = 0
began now_ms (some p) = if ltb 0 p.uptime_ms then (now_ms - p.uptime_ms) / 1000 else 0

unfoldable pub errors_cell : ℕ → Cell
unfolding decimal
errors_cell n = record {
  label = codes "Errors 5m";
  value = decimal n;
  unit = none;
  sub = some [];
  color = some (codes "rose");
}

abbrev fds_text : Option ℕ → Text
fds_text none = dash
fds_text (some n) = decimal n

module _ {N : Type 0} where
  unfoldable pub uptime_cell : (ℕ → Text) → ℕ → Option (Proc N) → Cell
  unfolding relative_time
  uptime_cell date_short now_ms p =
      let start = began now_ms p in
      record {
        label = codes "Uptime";
        value = if ltb 0 start then relative_time start now_ms else dash;
        unit = none;
        sub = some (if ltb 0 start then codes "since " ++ date_short start else []);
        color = some (codes "olive");
      }

  abbrev restarts_text : Option (Proc N) → Text
  restarts_text none = dash
  restarts_text (some p) = decimal p.restarts

  abbrev restarts_sub : Option (Proc N) → Text
  restarts_sub none = codes "stable"
  restarts_sub (some p) =
      if ltb 0 p.restarts_24h then decimal p.restarts_24h ++ codes " in 24h" else codes "stable"

  unfoldable pub restarts_cell : Option (Proc N) → Cell
  unfolding decimal
  restarts_cell p = record {
    label = codes "Restarts";
    value = restarts_text p;
    unit = none;
    sub = some (restarts_sub p);
    color = some (codes "amber");
  }

  abbrev threads_text : Option (Proc N) → Text
  threads_text none = dash
  threads_text (some p) = decimal p.threads

  abbrev fds_sub : Option (Proc N) → Text
  fds_sub none = []
  fds_sub (some p) = codes "fds " ++ fds_text p.open_fds

  unfoldable pub threads_cell : Option (Proc N) → Cell
  unfolding decimal
  threads_cell p = record {
    label = codes "Threads";
    value = threads_text p;
    unit = none;
    sub = some (fds_sub p);
    color = some (codes "sky");
  }

  abbrev mem_text : Option (Proc N) → Text
  mem_text none = dash
  mem_text (some p) = mib_text p.mem

module _ (F : Floats) where
  open F use {Num, of_nat, div, round, max, to_fixed, show}

  -- `Math.max` of some numbers after a first one.
  abbrev pub max_from : Num → List Num → Num
  max_from m [] = m
  max_from m (x ∷ xs) = max_from (max m x) xs

  -- The peak over the buckets, if there are any. The types say that a bucket has its maxima, so that
  -- the fallbacks `?? cpu_avg ?? 0` and `?? mem_avg ?? 0` of the source never apply.
  unfoldable pub peak : (Bucket Num → Num) → List (Bucket Num) → Option Num
  peak value [] = none
  peak value (b ∷ bs) = some (max_from (value b) (map value bs))

  abbrev cpu_value : Option (Proc Num) → Text
  cpu_value none = dash
  cpu_value (some p) = to_fixed 1 p.cpu

  abbrev cpu_sub : Text → Option Num → Text
  cpu_sub label none = []
  cpu_sub label (some m) = codes "peak " ++ (to_fixed 1 m ++ (codes "% · " ++ label))

  abbrev mem_sub : Option Num → Text
  mem_sub none = []
  mem_sub (some m) = codes "peak " ++ (show (round (div m (of_nat mib))) ++ codes " MB")

  unfoldable pub cpu_cell : ℕ → List (Bucket Num) → Option (Proc Num) → Cell
  unfolding window_label peak
  cpu_cell window_ms buckets p = record {
    label = codes "CPU";
    value = cpu_value p;
    unit = some (codes "%");
    sub = some (cpu_sub (window_label window_ms) (peak (λ b. b.cpu_max) buckets));
    color = some (codes "teal");
  }

  unfoldable pub mem_cell : List (Bucket Num) → Option (Proc Num) → Cell
  unfolding mib_text peak
  mem_cell buckets p = record {
    label = codes "Memory";
    value = mem_text p;
    unit = some (codes "MB");
    sub = some (mem_sub (peak (λ b. b.mem_max) buckets));
    color = some (codes "indigo");
  }

  -- The six figures of the page.
  unfoldable pub detail_cells :
      (ℕ → Text) → (now_ms window_ms : ℕ) → List (Bucket Num) → Detail Num → List Cell
  unfolding cpu_cell mem_cell uptime_cell restarts_cell errors_cell threads_cell
  detail_cells date_short now_ms window_ms buckets s =
      cpu_cell window_ms buckets s.proc
      ∷ mem_cell buckets s.proc
      ∷ uptime_cell date_short now_ms s.proc
      ∷ restarts_cell s.proc
      ∷ errors_cell s.err_count
      ∷ threads_cell s.proc
      ∷ []

-- The tab that is chosen, and the part of the page that is shown below the tabs, if one is.
pub data Sub : Type 0 where
  over files : Sub

abbrev is_files : Sub → Bool
is_files over = false
is_files files = true

-- Each tab's class; that of the files is there only for a process from git.
unfoldable pub subtabs : {N : Type 0} → Sub → Detail N → List (Text × Text)
unfolding show_files
subtabs sub s =
    (codes "Overview", codes "subtab" ++ (if is_files sub then [] else codes " on"))
    ∷ ((if show_files s
          then (codes "Files", codes "subtab" ++ (if is_files sub then codes " on" else [])) ∷ []
          else [])
        ++ (codes "Logs ›", codes "subtab") ∷ [])

unfoldable pub subview : {N : Type 0} → Sub → Detail N → Option Sub
unfolding show_files
subview over s = some over
subview files s = if show_files s then some files else none

-- The last eight lines: the time, the class, and the text.
unfoldable pub recent_lines : (ℕ → Text) → Tail → List (Text × Text × Text)
recent_lines local_time t =
    map (λ l. (local_time l.ts, (if l.stderr then codes "er" else codes "tx"), l.text))
      (drop (length t.lines - 8) t.lines)

abbrev pub no_lines : List LogLine → Option EmptyState
no_lines [] = some (record { message = codes "No recent logs."; action = none })
no_lines (l ∷ ls) = none
