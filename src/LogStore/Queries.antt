-- ===== src/LogStore/Queries.antt =====
-- `Since` of internal/logstore/store.go: its rows and its cursor.
use marshal_pm.LogStore.{parse_limit}
use marshal_pm.Base.{
  Option, none, some, ℕ, zero, suc, ◌-◌, ◌≡◌, ◌≤◌, ◌<◌, arith, Bool, true, List, [], ◌∷◌, length,
  length-drop, take, drop, select, ltb, if◌then◌else◌,
}
use marshal_pm.Base.{Text}
use marshal_pm.LogStore.{StoredLine, StreamFilter, matches, since}
use marshal_pm.LogStore.Rows.{
  Above, Within, Above-take, Above-drop_any, Above-select, Above-newer, max_row_ge, max_row-Within,
}

length-take_le : (n : ℕ) (rs : List StoredLine) → length (take n rs) ≤ n
length-take_le zero rs = omega arith
length-take_le (suc n) [] = omega arith
length-take_le (suc n) (r ∷ rs) = omega (arith, length-take_le n rs)

since-rows :
    (after limit : ℕ) (rows : List StoredLine)
    → 0 < limit
    → Above 0 rows
    → let out =
        if ltb 0 after
        then (if ltb 0 limit
            then take limit (select (λ r. ltb after r.row_id) rows)
            else select (λ r. ltb after r.row_id) rows)
        else (if ltb 0 limit then drop (length rows - limit) rows else rows) in
      (length out ≤ limit) × Above after out
since-rows zero limit rows pos asc =
    let e : ltb 0 limit ≡ true = ground (arith, pos) in
    rw e (
      omega (arith, length-drop (length rows - limit) rows),
      Above-drop_any (length rows - limit) 0 rows asc,
    )
since-rows (suc c) limit rows pos asc =
    let e : ltb 0 limit ≡ true = ground (arith, pos) in
    let later : ltb 0 (suc c) ≡ true = ground arith in
    let newer = select (λ r. ltb (suc c) r.row_id) rows in
    rw (e, later)
      (length-take_le limit newer, Above-take limit (suc c) newer (Above-newer 0 (suc c) rows asc))

parse_limit-bounds : (v : Option ℕ) → (0 < parse_limit v) × (parse_limit v ≤ 5000)
unfolding parse_limit
parse_limit-bounds none = (omega arith, omega arith)
parse_limit-bounds (some v) = (ground arith, ground arith)

-- Over a table whose row ids ascend, and for the limit that the handler reads from a request: a query
-- brings no more rows than that, and never more than 5000; their row ids ascend from above the
-- cursor that it was asked from; and the cursor that it returns is not before that one and not
-- before any of its rows.
pub since_bounds :
    (like : (pattern text : Text) → Bool) (table : List StoredLine) (labels : List Text) (after : ℕ)
    (limit : Option ℕ) (filter : StreamFilter) (text : Text)
    → Above 0 table
    → let r = since like table labels after (parse_limit limit) filter text in
      (length r.0 ≤ parse_limit limit)
      × (length r.0 ≤ 5000)
      × Above after r.0
      × (after ≤ r.1)
      × Within r.1 r.0
unfolding since
since_bounds like table [] after limit filter text asc =
    (omega arith, omega arith, tt, omega arith, tt)
since_bounds like table (l ∷ ls) after limit filter text asc =
    let rows = select (matches like (l ∷ ls) filter text) table in
    let (pos, most) = parse_limit-bounds limit in
    let (short, above) =
      since-rows after (parse_limit limit) rows pos
        (Above-select (matches like (l ∷ ls) filter text) 0 table asc) in
    (short, omega (arith, short, most), above, max_row_ge after _, max_row-Within after _ above)
