-- ===== src/LogStore.antt =====
-- internal/logstore/store.go and the handler `logs` of internal/dashboard/logs.go: the stored log
-- lines that the server answers the polls from. The table is the list of its rows in the order of
-- their row ids. The database's `LIKE` and Go's `strconv.Atoi` are parameters. A query that
-- fails is answered with an error, and a transaction that fails inserts nothing: both are left out
-- here, and the first is a poll that is lost in Follow.
pub mod Rows
pub mod Queries
pub mod Follow
pub mod Drain
pub mod Overlap
pub mod Tests
use marshal_pm.Base.{
  ℕ, suc, ◌+◌, ◌-◌, Bool, true, false, not, ◌&&◌, ◌||◌, Option, none, some, List, [], ◌∷◌, ◌++◌,
  Text, codes, has, is_blank, length, take, drop, select, map, ltb, ◌==◌, if◌then◌else◌, Outcome,
  returned, threw,
}
use marshal_pm.Api.Types.{LogLine, LogsResponse}

pub record StoredLine : Type 0 where
  pub row_id : ℕ
  pub ts : ℕ
  pub label : Text
  pub stderr : Bool
  pub text : Text

pub data StreamFilter : Type 0 where
  any_stream stdout_only stderr_only : StreamFilter

-- `streamFilterFor`, of the parameter `stream`.
unfoldable pub stream_filter_for : Text → StreamFilter
stream_filter_for s =
    if has s (codes "stdout" ∷ [])
    then stdout_only
    else if has s (codes "stderr" ∷ [])
    then stderr_only
    else any_stream

abbrev pub on_stream : StreamFilter → Bool → Bool
on_stream any_stream is_stderr = true
on_stream stdout_only is_stderr = not is_stderr
on_stream stderr_only is_stderr = is_stderr

-- The largest row id of some rows, and at least the one that is given.
unfoldable pub max_row : ℕ → List StoredLine → ℕ
max_row c [] = c
max_row c (r ∷ rs) = max_row (if ltb c r.row_id then r.row_id else c) rs

-- An insertion, to which the database gives the next row id.
unfoldable pub insert_line : List StoredLine → StoredLine → List StoredLine
unfolding max_row
insert_line table line = table ++ (record line { row_id = suc (max_row 0 table) }) ∷ []

-- `Append`: the loop over the lines.
unfoldable pub append_lines : List StoredLine → List StoredLine → List StoredLine
append_lines table [] = table
append_lines table (line ∷ lines) = append_lines (insert_line table line) lines

-- `LIMIT`, where there is one.
abbrev pub limited : ℕ → List StoredLine → List StoredLine
limited limit rows = if ltb 0 limit then take limit rows else rows

-- The newest rows, in ascending order.
abbrev pub newest : ℕ → List StoredLine → List StoredLine
newest limit rows = if ltb 0 limit then drop (length rows - limit) rows else rows

-- The clamp of `parseLimit`, on a number that was read; 0 is not one that it takes.
unfoldable pub parse_limit : Option ℕ → ℕ
parse_limit none = 500
parse_limit (some v) = if v == 0 then 500 else if ltb 5000 v then 5000 else v

module _ (like : (pattern text : Text) → Bool) where
  -- The rows of the query: those of the labels, of the stream, and with the text.
  abbrev pub matches : List Text → StreamFilter → Text → StoredLine → Bool
  matches labels filter text r =
      has r.label labels && (on_stream filter r.stderr && (is_blank text || like text r.text))

  unfoldable pub since :
      (table : List StoredLine) (labels : List Text) (after limit : ℕ) (filter : StreamFilter)
      (text : Text)
      → List StoredLine × ℕ
  since table [] after limit filter text = ([], after)
  since table (l ∷ ls) after limit filter text =
      let rows = select (matches (l ∷ ls) filter text) table in
      let out =
        if ltb 0 after
        then limited limit (select (λ r. ltb after r.row_id) rows)
        else newest limit rows in
      (out, max_row after out)

-- `splitLogLabel`: the name before the last `#`, and the number behind it.
abbrev label_parts : ℕ → Option (Text × Text) → Text → Option (Text × Text)
label_parts c (some (a, b)) s = some (c ∷ a, b)
label_parts c none s = if c == 35 then some ([], s) else none

unfoldable pub last_hash : Text → Option (Text × Text)
last_hash [] = none
last_hash (c ∷ s) = label_parts c (last_hash s) s

module _ (atoi : Text → ℕ) where
  unfoldable pub split_log_label : Text → Text × ℕ
  unfolding last_hash
  split_log_label label = elim (last_hash label) [
    | none ↦ (label, 0)
    | some parts ↦ (parts.0, atoi parts.1)
  ]

  unfoldable pub view_of : StoredLine → LogLine
  view_of r = record {
    ts = r.ts;
    name = (split_log_label r.label).0;
    instance_id = (split_log_label r.label).1;
    stderr = r.stderr;
    text = r.text;
  }

  -- What the handler writes of the rows and the cursor.
  unfoldable pub logs_view : List StoredLine × ℕ → LogsResponse
  logs_view (rows, cursor) = record { cursor = cursor; lines = map view_of rows }
