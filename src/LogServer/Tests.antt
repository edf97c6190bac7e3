-- ===== src/LogServer/Tests.antt =====
-- A small store.
use marshal_pm.Base.{
  ℕ, ◌-◌, ◌≡◌, refl, arith, Bool, true, false, Option, some, List, [], ◌∷◌, Text, codes, text_eq,
  select, length, has, returned,
}
use marshal_pm.LogStore.{StoredLine, stderr_only, stream_filter_for, append_lines, since}
use marshal_pm.LogServer.{
  stores_since, downloaded, prune, logstats_reply, error_counts, stores_error_counts, labels_of,
  insert_label, text_before, group_labels, count_label, error_window_ms,
}
use marshal_pm.LogServer.Labels.{answer, selected, stores_since_lem}
use marshal_pm.LogServer.Counts.{is_error_of, stats_done-logstats_reply}
use marshal_pm.LogServer.Pruning.{since-prune}
use marshal_pm.Detail.{stats_done, opened}

abbrev row_of : ℕ → ℕ → Text → Bool → StoredLine
row_of id ts label stderr = record {
  row_id = id;
  ts = ts;
  label = label;
  stderr = stderr;
  text = codes "x";
}

abbrev store : List StoredLine
store =
    row_of 1 100 (codes "web#0") true
    ∷ row_of 2 400000 (codes "web#1") true
    ∷ row_of 3 400000 (codes "api#0") false
    ∷ row_of 4 400001 (codes "web#0") true
    ∷ []

abbrev accept_all : (pattern text : Text) → Bool
accept_all pattern text = true

stores_since_lem_example :
    (stores_since accept_all (some store) (codes "web") 1 500 stderr_only []
      ≡ answer accept_all 1 500 (select (selected accept_all (codes "web") stderr_only []) store))
    × (downloaded accept_all (some store) (codes "web") (codes "stderr") []
        ≡ select (selected accept_all (codes "web") (stream_filter_for (codes "stderr")) []) store)
stores_since_lem_example =
    stores_since_lem accept_all store (codes "web") 1 500 stderr_only (codes "stderr") []

abbrev stores : Text → Option (List StoredLine)
stores agent = some store

stats_done-logstats_reply_example :
    (stats_done {N = ℕ}
      (codes "web")
      false
      (returned ((codes "web#0", 1) ∷ (codes "web#1", 1) ∷ []))
      opened).err_count
    ≡ length (select (is_error_of (codes "web") (400002 - error_window_ms)) store)
unfolding logstats_reply stores_error_counts error_counts labels_of group_labels count_label
    insert_label text_eq has text_before
stats_done-logstats_reply_example =
    stats_done-logstats_reply stores 400002 (codes "a1") (codes "web") store
      ((codes "web#0", 1) ∷ (codes "web#1", 1) ∷ []) opened refl refl

since-prune_example :
    since accept_all
      (append_lines (prune 500000 store).0 (row_of 0 500001 (codes "web#0") false ∷ []))
      (codes "web#0" ∷ [])
      4
      500
      stderr_only
      []
    ≡ ([], 4)
unfolding prune
since-prune_example =
    since-prune accept_all 500000 store (row_of 0 500001 (codes "web#0") false ∷ [])
      (codes "web#0" ∷ []) 4 500 stderr_only [] refl (omega arith) (omega arith)
