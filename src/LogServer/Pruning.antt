-- ===== src/LogServer/Pruning.antt =====
-- Deleting old lines: row ids are given out again.
use marshal_pm.Base.{
  ℕ, suc, ◌+◌, ◌≡◌, ◌≤◌, ◌<◌, refl, ap, ◌∙◌, arith, Bool, true, inl, inr, Bool-cases, List, [], ◌∷◌,
  Text, select, ltb, length,
}
use marshal_pm.LogStore.{StoredLine, StreamFilter, max_row, matches, append_lines, since}
use marshal_pm.LogStore.Rows.{
  Within, Within-mono, select-Within, Within-select, numbered, append_lines-numbered,
}
use marshal_pm.LogServer.{prune}
use marshal_pm.LogServer.Labels.{answer, since-answer, take-nil}

numbered-Within :
    (k : ℕ) (lines : List StoredLine) → Within (k + length lines) (numbered (suc k) lines)
unfolding numbered
numbered-Within k [] = tt
numbered-Within k (line ∷ lines) =
    let e : suc k + length lines ≡ k + suc (length lines) = omega arith in
    (omega arith, omega arith, rw e at (numbered-Within (suc k) lines))

append_lines-Within :
    (lines : List StoredLine) (c : ℕ) → length lines ≤ c → Within c (append_lines [] lines)
unfolding max_row
append_lines-Within lines c few = rw (append_lines-numbered [] lines) (
    Within-mono (length lines) c (numbered 1 lines) few
      (let e : 0 + length lines ≡ length lines = omega arith in rw e at (numbered-Within 0 lines)))

module _ (like : (pattern text : Text) → Bool) where
  none_newer :
      (c limit : ℕ) (rows : List StoredLine)
      → 0 < c
      → Within c rows
      → answer like c limit rows ≡ ([], c)
  unfolding max_row
  none_newer c limit rows pos within =
      let later : ltb 0 c ≡ true = ground (arith, pos) in
      elim (Bool-cases (ltb 0 limit)) [
        | inl cut ↦ rw (later, cut, select-Within c rows within, take-nil limit) refl
        | inr all ↦ rw (later, all, select-Within c rows within) refl
      ]

  -- Where a deletion of old lines leaves none, the row ids begin anew: a page whose last cursor was
  -- `c` is not sent the lines that are stored next, while there are no more than `c` of them, and
  -- asks from `c` again.
  pub since-prune :
      (before_ms : ℕ) (table lines : List StoredLine) (labels : List Text) (c limit : ℕ)
      (filter : StreamFilter) (text : Text)
      → (prune before_ms table).0 ≡ []
      → 0 < c
      → length lines ≤ c
      → since like (append_lines (prune before_ms table).0 lines) labels c limit filter text
        ≡ ([], c)
  since-prune before_ms table lines labels c limit filter text empty pos few =
      ap (λ t. since like (append_lines t lines) labels c limit filter text) empty
      ∙ since-answer like (append_lines [] lines) labels c limit filter text
      ∙ none_newer c limit (select (matches like labels filter text) (append_lines [] lines)) pos (
          Within-select (matches like labels filter text) c (append_lines [] lines)
            (append_lines-Within lines c few))
