-- ===== src/LogServer/Counts.antt =====
-- The errors that web/src/ProcessDetail.tsx counts, of those that internal/dashboard/logs.go answers.
use marshal_pm.Base.{
  All-map, ℕ, suc, ◌-◌, ◌≡◌, refl, ap, sym, ◌∙◌, arith, Bool, false, ◌&&◌, Option, none, some, List,
  [], ◌∷◌, Text, text_eq, text_eq_iff, has, select, leb, if◌then◌else◌, length, returned,
}
use marshal_pm.LogStore.{StoredLine}
use marshal_pm.LogServer.{
  labels_of, is_error, count_label, group_labels, error_counts, stores_error_counts,
  error_window_ms, logstats_reply,
}
use marshal_pm.LogServer.Labels.{select-cong, any-labels_of, own_label}
use marshal_pm.Detail.{Detail, belongs, count_errors, stats_done}

count_errors-count_label :
    (proc l : Text) (counts : List (Text × ℕ))
    → count_errors proc (count_label l counts)
      ≡ (if belongs proc l then suc (count_errors proc counts) else count_errors proc counts)
unfolding count_errors count_label
count_errors-count_label proc l [] = ground arith
count_errors-count_label proc l ((m, n) ∷ counts) =
    ground (arith, text_eq_iff m l, count_errors-count_label proc l counts)

count_errors-group_labels :
    (proc : Text) (rows : List StoredLine)
    → count_errors proc (group_labels rows)
      ≡ length (select (λ (r : StoredLine). belongs proc r.label) rows)
unfolding count_errors group_labels
count_errors-group_labels proc [] = refl
count_errors-group_labels proc (r ∷ rs) =
    count_errors-count_label proc r.label (group_labels rs)
    ∙ ground (arith, count_errors-group_labels proc rs)

select-select :
    {A : Type 0} (p q : A → Bool) (xs : List A)
    → select p (select q xs) ≡ select (λ x. p x && q x) xs
select-select p q [] = refl
select-select p q (x ∷ xs) = ground (arith, select-select p q xs)

-- An error of a process, not older than a time.
abbrev pub is_error_of : Text → ℕ → StoredLine → Bool
is_error_of proc since_ms r = belongs proc r.label && (r.stderr && leb since_ms r.ts)

select-is_error :
    (proc : Text) (since_ms : ℕ) (table : List StoredLine)
    → select
        (λ (r : StoredLine). belongs proc r.label)
        (select (is_error (labels_of table) since_ms) table)
      ≡ select (is_error_of proc since_ms) table
unfolding has
select-is_error proc since_ms table =
    select-select (λ (r : StoredLine). belongs proc r.label) (is_error (labels_of table) since_ms)
      table
    ∙ select-cong _ (is_error_of proc since_ms) table (
        All-map _
          (λ (r : StoredLine).
            (belongs proc r.label && is_error (labels_of table) since_ms r)
            ≡ is_error_of proc since_ms r)
          table
          (λ r h.
            ap (λ b. belongs proc r.label && (b && (r.stderr && leb since_ms r.ts)))
              (any-labels_of (λ y. text_eq y r.label) table ∙ h))
          (own_label table))

count_errors-error_counts :
    (proc : Text) (since_ms : ℕ) (table : List StoredLine)
    → count_errors proc (stores_error_counts (some table) since_ms)
      ≡ length (select (is_error_of proc since_ms) table)
unfolding stores_error_counts error_counts
count_errors-error_counts proc since_ms table =
    count_errors-group_labels proc (select (is_error (labels_of table) since_ms) table)
    ∙ ap length (select-is_error proc since_ms table)

abbrev counts_of : Option (List (Text × ℕ)) → List (Text × ℕ)
counts_of none = []
counts_of (some counts) = counts

-- What the server answers for an agent that has a store, handed to the page of one of its
-- processes: the page then shows the number of lines in the store that the process, by the start of
-- their label, wrote to its standard error in the last five minutes.
pub stats_done-logstats_reply :
    {N : Type 0} (stores : Text → Option (List StoredLine)) (now_ms : ℕ) (agent proc : Text)
    (table : List StoredLine) (counts : List (Text × ℕ)) (s : Detail N)
    → stores agent ≡ some table
    → logstats_reply stores now_ms agent ≡ some counts
    → (stats_done proc false (returned counts) s).err_count
      ≡ length (select (is_error_of proc (now_ms - error_window_ms)) table)
unfolding stats_done logstats_reply
stats_done-logstats_reply stores now_ms [] proc table counts s h k = cc
stats_done-logstats_reply stores now_ms (c ∷ agent) proc table counts s h k =
    let e : some (stores_error_counts (some table) (now_ms - error_window_ms)) ≡ some counts =
      rw h at k in
    ap (λ o. count_errors proc (counts_of o)) (sym e)
    ∙ count_errors-error_counts proc (now_ms - error_window_ms) table
