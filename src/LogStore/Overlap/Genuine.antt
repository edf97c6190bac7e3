-- ===== src/LogStore/Overlap/Genuine.antt =====
-- What overlapping polls can and cannot do to a page.
use mathlib.Core.Path.{subst}
use marshal_pm.Base.{
  ℕ, zero, suc, ◌-◌, ◌≡◌, ◌≤◌, inl, inr, refl, ap, sym, ◌∙◌, arith, true, Bool-cases, List, [], ◌∷◌,
  ◌++◌, All, All-map, All-append, All-take, All-drop, All-select, All-Among, Among, Among-append,
  length, length-drop, select, get_elem?, ltb, if◌then◌else◌,
}
use marshal_pm.Api.Types.{LogLine, LogsResponse}
use marshal_pm.LogStream.{Stream, log_cap, append_capped, extended, next_after, on_reply}
use marshal_pm.LogStore.{StoredLine, max_row, append_lines, matches, since, view_of, logs_view}
use marshal_pm.LogStore.Rows.{
  max_row_ge, numbered, append_lines-numbered, select-append, max_row-append_lines,
}
use marshal_pm.LogStore.Follow.{Query, rows_of, views_of}
use marshal_pm.LogStore.Follow.Views.{views-append}
use marshal_pm.LogStore.Overlap.{
  Wire, WireEvent, inserted, asked, arrived, dropped, without, deliver, wire_step, wire_steps,
  wire_opened,
}

module _ (P : LogLine → Type 0) where
  All-append_capped :
      (cap : ℕ) (prev added : List LogLine)
      → All P prev
      → All P added
      → All P (append_capped cap prev added)
  unfolding append_capped
  All-append_capped cap prev added h k = elim (Bool-cases (ltb cap (length (prev ++ added)))) [
    | inl long ↦
        rw long
          (All-drop P (length (prev ++ added) - cap) (prev ++ added) (All-append P prev added h k))
    | inr short ↦ rw short (All-append P prev added h k)
  ]

  All-extended :
      (prev added : List LogLine) → All P prev → All P added → All P (extended prev added)
  unfolding extended
  All-extended prev [] h k = h
  All-extended prev (x ∷ added) h k =
      let e : ltb 0 (length (x ∷ added)) ≡ true = ground arith in
      rw e (All-append_capped log_cap prev (x ∷ added) h k)

length-extended :
    (prev added : List LogLine) → length prev ≤ log_cap → length (extended prev added) ≤ log_cap
unfolding extended append_capped
length-extended prev added h = elim (Bool-cases (ltb 0 (length added))) [
  | inr none_came ↦ rw none_came h
  | inl some_came ↦ elim (Bool-cases (ltb log_cap (length (prev ++ added)))) [
    | inl long ↦
        rw (some_came, long)
          (omega (arith, length-drop (length (prev ++ added) - log_cap) (prev ++ added)))
    | inr short ↦ rw (some_came, short) (ground (arith, short))
  ]
]

-- The rows of an answer are rows of the table that match.
since-All :
    (P : StoredLine → Type 0) (q : Query) (table : List StoredLine) (after : ℕ)
    → All P (rows_of q table)
    → All P (since q.like table (q.label ∷ q.labels) after q.limit q.filter q.text).0
unfolding since
since-All P q table after h =
    let rows = rows_of q table in
    let newer = select (λ (r : StoredLine). ltb after r.row_id) rows in
    let k = All-select P (λ (r : StoredLine). ltb after r.row_id) rows h in
    elim (Bool-cases (ltb 0 after)) [
      | inl follow ↦ elim (Bool-cases (ltb 0 q.limit)) [
        | inl cut ↦ rw (follow, cut) (All-take P q.limit newer k)
        | inr all ↦ rw (follow, all) k
      ]
      | inr backfill ↦ elim (Bool-cases (ltb 0 q.limit)) [
        | inl cut ↦ rw (backfill, cut) (All-drop P (length rows - q.limit) rows h)
        | inr all ↦ rw (backfill, all) h
      ]
    ]

max_row-All : (c : ℕ) (rs : List StoredLine) → All (λ r. r.row_id ≤ max_row c rs) rs
unfolding max_row
max_row-All c [] = tt
max_row-All c (r ∷ rs) =
    let d = if ltb c r.row_id then r.row_id else c in
    let up : r.row_id ≤ d = ground arith in (omega (arith, up, max_row_ge d rs), max_row-All d rs)

max_row-All_le :
    (c m : ℕ) (rs : List StoredLine) → c ≤ m → All (λ r. r.row_id ≤ m) rs → max_row c rs ≤ m
unfolding max_row
max_row-All_le c m [] h k = h
max_row-All_le c m (r ∷ rs) h k =
    max_row-All_le (if ltb c r.row_id then r.row_id else c) m rs (ground (arith, h, k.0)) k.1

-- A line that a matching row of the table is shown as.
abbrev pub IsStored : Query → List StoredLine → LogLine → Type 0
IsStored q table line = Among line (views_of q (rows_of q table))

abbrev pub IsGenuine : Query → List StoredLine → LogsResponse → Type 0
IsGenuine q table r = All (IsStored q table) r.lines × (r.cursor ≤ max_row 0 table)

abbrev pub IsSound : Query → Wire → Type 0
IsSound q w =
    All (IsStored q w.table) w.hook.lines
    × (length w.hook.lines ≤ log_cap)
    × (w.hook.cursor ≤ max_row 0 w.table)
    × All (IsGenuine q w.table) w.under_way

IsStored-append_lines :
    (q : Query) (table lines : List StoredLine) (line : LogLine)
    → IsStored q table line
    → IsStored q (append_lines table lines) line
IsStored-append_lines q table lines line h =
    let added = numbered (suc (max_row 0 table)) lines in
    let e : views_of q (rows_of q (append_lines table lines))
        ≡ views_of q (rows_of q table) ++ views_of q (rows_of q added) =
      ap (λ t. views_of q (rows_of q t)) (append_lines-numbered table lines)
      ∙ ap (views_of q)
          (select-append (matches q.like (q.label ∷ q.labels) q.filter q.text) table added)
      ∙ views-append q (rows_of q table) (rows_of q added) in
    subst (Among line) (sym e)
      (Among-append line (views_of q (rows_of q table)) (views_of q (rows_of q added)) h)

All-views :
    (P : LogLine → Type 0) (q : Query) (rows : List StoredLine)
    → All P (views_of q rows)
    → All (λ r. P (view_of q.atoi r)) rows
All-views P q [] h = tt
All-views P q (r ∷ rs) h = (h.0, All-views P q rs h.1)

views-All :
    (P : LogLine → Type 0) (q : Query) (rows : List StoredLine)
    → All (λ r. P (view_of q.atoi r)) rows
    → All P (views_of q rows)
views-All P q [] h = tt
views-All P q (r ∷ rs) h = (h.0, views-All P q rs h.1)

since-cursor :
    (q : Query) (table : List StoredLine) (after : ℕ)
    → let out = since q.like table (q.label ∷ q.labels) after q.limit q.filter q.text in
      out.1 ≡ max_row after out.0
unfolding since
since-cursor q table after = refl

answer-IsGenuine :
    (q : Query) (table : List StoredLine) (after : ℕ)
    → after ≤ max_row 0 table
    → IsGenuine q table
        (logs_view q.atoi (since q.like table (q.label ∷ q.labels) after q.limit q.filter q.text))
unfolding logs_view
answer-IsGenuine q table after h =
    let out = since q.like table (q.label ∷ q.labels) after q.limit q.filter q.text in
    let rows = rows_of q table in
    let m = max_row 0 table in
    (
      views-All (IsStored q table) q out.0 (
          since-All (λ r. IsStored q table (view_of q.atoi r)) q table after
            (All-views (IsStored q table) q rows (All-Among (views_of q rows)))),
      subst (λ n. n ≤ m) (sym (since-cursor q table after))
          (max_row-All_le after m out.0 h (
            since-All (λ r. r.row_id ≤ m) q table after
              (All-select (λ r. r.row_id ≤ m) (matches q.like (q.label ∷ q.labels) q.filter q.text)
                table (max_row-All 0 table)))),
    )

All-without : {A : Type 0} (P : A → Type 0) (n : ℕ) (xs : List A) → All P xs → All P (without n xs)
unfolding without
All-without P n [] h = tt
All-without P zero (x ∷ xs) h = h.1
All-without P (suc n) (x ∷ xs) h = (h.0, All-without P n xs h.1)

-- A reply that is sound is delivered, or none.
deliver-IsSound :
    (q : Query) (w : Wire) (n : ℕ) (rs : List LogsResponse)
    → IsSound q w
    → All (IsGenuine q w.table) rs
    → IsSound q (record w { hook = deliver (get_elem? rs n) w.hook })
unfolding on_reply
deliver-IsSound q w n [] h k = h
deliver-IsSound q w (suc n) (r ∷ rs) h k = deliver-IsSound q w n rs h k.1
deliver-IsSound q w zero (r ∷ rs) h k = elim (Bool-cases w.hook.stop) [
  | inl stopped ↦ rw stopped h
  | inr live ↦ rw live (
    All-extended (IsStored q w.table) w.hook.lines r.lines h.0 k.0.0,
    length-extended w.hook.lines r.lines h.1,
    ground (arith, h.2, k.0.1),
    h.3,
  )
]

next_after_le : (q : Query) (w : Wire) → IsSound q w → next_after w.hook ≤ max_row 0 w.table
unfolding next_after
next_after_le q w h = ground (arith, h.2)

wire_step-IsSound :
    (q : Query) (e : WireEvent) (w : Wire) → IsSound q w → IsSound q (wire_step q e w)
unfolding wire_step
wire_step-IsSound q (inserted lines) w h =
    let table' = append_lines w.table lines in
    let grows = max_row-append_lines w.table lines in
    let kept = IsStored-append_lines q w.table lines in
    (
      All-map (IsStored q w.table) (IsStored q table') w.hook.lines kept h.0,
      h.1,
      omega (arith, h.2, grows),
      All-map (IsGenuine q w.table) (IsGenuine q table') w.under_way
          (λ r k. (
            All-map (IsStored q w.table) (IsStored q table') r.lines kept k.0,
            omega (arith, k.1, grows),
          ))
          h.3,
    )
wire_step-IsSound q asked w h = (
  h.0,
  h.1,
  h.2,
  All-append (IsGenuine q w.table) w.under_way _ h.3
      (answer-IsGenuine q w.table (next_after w.hook) (next_after_le q w h), tt),
)
wire_step-IsSound q (arrived n) w h =
    let (lines, size, cursor, rest) = deliver-IsSound q w n w.under_way h h.3 in
    (lines, size, cursor, All-without (IsGenuine q w.table) n w.under_way rest)
wire_step-IsSound q (dropped n) w h =
    (h.0, h.1, h.2, All-without (IsGenuine q w.table) n w.under_way h.3)

wire_steps-IsSound :
    (q : Query) (es : List WireEvent) (w : Wire) → IsSound q w → IsSound q (wire_steps q es w)
unfolding wire_steps
wire_steps-IsSound q [] w h = h
wire_steps-IsSound q (e ∷ es) w h =
    wire_steps-IsSound q es (wire_step q e w) (wire_step-IsSound q e w h)

-- A page that is opened over any table, and then any interleaving of insertions, of polls that the
-- server answers while others are still under way, and of replies that arrive in any order or never:
-- every line that the page holds is one of the stored lines that match its query, it holds 5000 at
-- most, and the cursor that it asks from next is not behind the last row of the table.
pub wire_steps_lem :
    (q : Query) (table : List StoredLine) (s : Stream) (es : List WireEvent)
    → let w = wire_steps q es (wire_opened table s) in
      All (λ line. Among line (views_of q (rows_of q w.table))) w.hook.lines
      × (length w.hook.lines ≤ log_cap)
      × (next_after w.hook ≤ max_row 0 w.table)
unfolding wire_opened
wire_steps_lem q table s es =
    let opened = wire_opened table s in
    let sound = wire_steps-IsSound q es opened (tt, omega arith, omega arith, tt) in
    (sound.0, sound.1, next_after_le q (wire_steps q es opened) sound)
