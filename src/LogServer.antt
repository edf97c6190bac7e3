-- ===== src/LogServer.antt =====
-- internal/server/logstores.go, and the handlers of internal/dashboard/logs.go that answer from it:
-- how a process's name selects the labels of the stored lines, how errors are counted, and how old
-- lines are deleted. The store of an agent is its table, or `none` for an agent that has none. The
-- database's order of texts is that of their code points. A query that fails is answered with an
-- error, which is left out here.
pub mod Labels
pub mod Counts
pub mod Pruning
pub mod Tests
use marshal_pm.Base.{
  ℕ, suc, ◌+◌, ◌-◌, ◌*◌, Bool, true, false, not, ◌&&◌, ◌||◌, Option, none, some, List, [], ◌∷◌,
  ◌++◌, Text, codes, text_eq, has, is_some, is_blank, strip_prefix, length, select, map, leb, ltb,
  ◌==◌, if◌then◌else◌,
}
use marshal_pm.Api.Types.{LogsResponse}
use marshal_pm.LogStore.{StoredLine, StreamFilter, stream_filter_for, parse_limit, since, logs_view}

-- `Labels`: the labels of a table, each once, in ascending order.
unfoldable pub text_before : Text → Text → Bool
text_before s [] = false
text_before [] (b ∷ t) = true
text_before (a ∷ s) (b ∷ t) = ltb a b || (a == b && text_before s t)

unfoldable pub insert_label : Text → List Text → List Text
unfolding text_eq text_before
insert_label l [] = l ∷ []
insert_label l (m ∷ ms) =
    let rest = insert_label l ms in
    if text_eq l m then m ∷ ms else if text_before l m then l ∷ m ∷ ms else m ∷ rest

unfoldable pub labels_of : List StoredLine → List Text
unfolding insert_label
labels_of [] = []
labels_of (r ∷ rs) = insert_label r.label (labels_of rs)

-- `l == selector || strings.HasPrefix(l, selector+"#")`.
unfoldable pub selects : Text → Text → Bool
unfolding text_eq strip_prefix
selects selector l = text_eq l selector || is_some (strip_prefix (selector ++ codes "#") l)

unfoldable pub matched : Text → List StoredLine → List Text
unfolding labels_of selects
matched selector table = select (selects selector) (labels_of table)

-- `parseAfter`.
unfoldable pub parse_after : Option ℕ → ℕ
parse_after none = 0
parse_after (some v) = v

-- `downloadName`.
abbrev dash_for : ℕ → ℕ
dash_for c = if c == 47 || (c == 92 || c == 34) then 45 else c

unfoldable pub download_name : Text → Text → Text
download_name agent selector =
    map dash_for agent ++ (codes "-" ++ (map dash_for selector ++ codes ".log"))

module _ (like : (pattern text : Text) → Bool) where
  -- `Since` of the stores: the query for the labels and the one for the lines, which the source runs
  -- one after the other, see the same table.
  unfoldable pub stores_since :
      (store : Option (List StoredLine)) (selector : Text) (after limit : ℕ) (filter : StreamFilter)
      (text : Text)
      → List StoredLine × ℕ
  unfolding matched since
  stores_since none selector after limit filter text = ([], 0)
  stores_since (some table) selector after limit filter text =
      since like table (matched selector table) after limit filter text

  -- The rows that `logsDownload` writes a line for each of.
  unfoldable pub downloaded :
      (store : Option (List StoredLine)) (selector stream text : Text) → List StoredLine
  unfolding stores_since stream_filter_for
  downloaded store selector stream text =
      (stores_since store selector 0 0 (stream_filter_for stream) text).0

  -- `logsDownload`: the name of the file and the rows written to it, or none for the answer 400.
  unfoldable pub download_reply :
      (stores : Text → Option (List StoredLine)) (agent selector stream text : Text)
      → Option (Text × List StoredLine)
  unfolding downloaded download_name
  download_reply stores agent selector stream text =
      if is_blank agent || is_blank selector
      then none
      else some (download_name agent selector, downloaded (stores agent) selector stream text)

  -- `logs`: none stands for the answer 400. `after` and `limit` are the numbers that were sent, if
  -- they can be read and are not negative.
  unfoldable pub logs_reply :
      (atoi : Text → ℕ) (stores : Text → Option (List StoredLine)) (agent selector : Text)
      (after limit : Option ℕ) (stream text : Text)
      → Option LogsResponse
  unfolding stores_since stream_filter_for parse_limit parse_after logs_view
  logs_reply atoi stores agent selector after limit stream text =
      if is_blank agent || is_blank selector
      then none
      else some (
          logs_view atoi (
            stores_since (stores agent) selector (parse_after after) (parse_limit limit)
              (stream_filter_for stream) text))

-- `ErrorCounts`: the rows of the query, and how many there are of each label that has one.
abbrev pub is_error : List Text → ℕ → StoredLine → Bool
is_error labels since_ms r = has r.label labels && (r.stderr && leb since_ms r.ts)

unfoldable pub count_label : Text → List (Text × ℕ) → List (Text × ℕ)
unfolding text_eq
count_label l [] = (l, 1) ∷ []
count_label l ((m, n) ∷ counts) =
    let rest = count_label l counts in if text_eq m l then (m, suc n) ∷ counts else (m, n) ∷ rest

unfoldable pub group_labels : List StoredLine → List (Text × ℕ)
unfolding count_label
group_labels [] = []
group_labels (r ∷ rs) = count_label r.label (group_labels rs)

unfoldable pub error_counts : List StoredLine → List Text → ℕ → List (Text × ℕ)
unfolding group_labels has
error_counts table labels since_ms = group_labels (select (is_error labels since_ms) table)

unfoldable pub stores_error_counts : Option (List StoredLine) → ℕ → List (Text × ℕ)
unfolding error_counts labels_of
stores_error_counts none since_ms = []
stores_error_counts (some table) since_ms = error_counts table (labels_of table) since_ms

-- `logstats`: none stands for the answer 400. Before the window's length has passed since 1970, the
-- source counts from a time below 0, which no line is older than either.
abbrev pub error_window_ms : ℕ
error_window_ms = 5 * 60 * 1000

unfoldable pub logstats_reply :
    (stores : Text → Option (List StoredLine)) → (now_ms : ℕ) → Text → Option (List (Text × ℕ))
unfolding stores_error_counts
logstats_reply stores now_ms agent =
    if is_blank agent
    then none
    else some (stores_error_counts (stores agent) (now_ms - error_window_ms))

-- `Prune`: what it leaves, and how many lines it deletes.
unfoldable pub prune : ℕ → List StoredLine → List StoredLine × ℕ
prune before_ms table =
    (select (λ r. not (ltb r.ts before_ms)) table, length (select (λ r. ltb r.ts before_ms) table))
