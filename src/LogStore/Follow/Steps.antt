-- ===== src/LogStore/Follow/Steps.antt =====
-- What a poll is answered with, and what the hook makes of it.
use mathlib.Core.Path.{subst}
use mathlib.Core.List.{append_assoc}
use marshal_pm.Base.{
  ℕ, zero, suc, ◌-◌, ◌≡◌, ◌<◌, refl, ap, sym, ◌∙◌, arith, true, false, List, [], ◌∷◌, ◌++◌, length,
  take, drop, select, ltb, returned,
}
use marshal_pm.Api.Types.{LogLine}
use marshal_pm.LogStream.{Stream, log_cap, next_after, on_reply}
use marshal_pm.LogStream.Buffer.{last_n, extended-last_n}
use marshal_pm.LogStore.{StoredLine, max_row, append_lines, matches, since, logs_view}
use marshal_pm.LogStore.Rows.{
  Above, Within, Within-append_right, max_row_ge, max_row-Within, Above-append, Above-select,
  Within-select, select-append, select-Within, select-Above, numbered, numbered-Above,
  append_lines-numbered, append_lines-Above, max_row-append_lines,
}
use marshal_pm.LogStore.Follow.{
  stored, lost, Tail, tail_poll, Query, rows_of, views_of, tail_of, follow, tail_step, Related,
}
use marshal_pm.LogStore.Follow.Views.{
  views-append, views-take, views-drop, length-views, views-numbered,
}

pub stored-rows :
    (q : Query)
    → (lines table seen pending : List StoredLine) → rows_of q table ≡ seen ++ pending
    → rows_of q (append_lines table lines)
      ≡ seen ++ (pending ++ rows_of q (numbered (suc (max_row 0 table)) lines))
stored-rows q lines table seen pending rows =
    ap (rows_of q) (append_lines-numbered table lines)
    ∙ select-append (matches q.like (q.label ∷ q.labels) q.filter q.text) table _
    ∙ ap (λ l. l ++ rows_of q (numbered (suc (max_row 0 table)) lines)) rows
    ∙ append_assoc seen pending _

pub stored-pending :
    (q : Query)
    → (k : ℕ) (pending lines : List StoredLine)
    → views_of q pending ++ views_of q (rows_of q lines)
      ≡ views_of q (pending ++ rows_of q (numbered k lines))
stored-pending q k pending lines =
    ap (views_of q pending ++◌) (sym (views-numbered q k lines))
    ∙ sym (views-append q pending (rows_of q (numbered k lines)))

-- The rows of a table, cut in two, lie within its cursor.
pub Within-rows :
    (q : Query)
    → (table seen pending : List StoredLine) → Above 0 table
    → rows_of q table ≡ seen ++ pending
    → Within (max_row 0 table) (seen ++ pending)
Within-rows q table seen pending asc rows = subst (Within (max_row 0 table)) rows (
    Within-select (matches q.like (q.label ∷ q.labels) q.filter q.text) _ table
      (max_row-Within 0 table asc))

pub stored-Related :
    (q : Query)
    → (lines : List StoredLine) (t : Tail) (table : List StoredLine) (s : Stream)
    → Related q t (table, s)
    → Related q (tail_step q (stored lines) t) (follow q (stored lines) (table, s))
unfolding tail_step follow
stored-Related q lines t table s
      (skipped, shown, pending, rows, view, ls, stop, next, within, above, asc, le, found) =
    let m = max_row 0 table in
    let seen = skipped ++ shown in
    let added = rows_of q (numbered (suc m) lines) in
    (
      skipped,
      shown,
      pending ++ added,
      stored-rows q lines table seen pending rows,
      ap (tail_step q (stored lines)) view
          ∙ ap (λ p. record (tail_of q skipped shown pending) { pending = p })
              (stored-pending q (suc m) pending lines),
      ls,
      stop,
      next,
      within,
      Above-append s.cursor m pending added above
          (Within-append_right m seen pending (Within-rows q table seen pending asc rows)) le
          (Above-select (matches q.like (q.label ∷ q.labels) q.filter q.text) m _
            (numbered-Above m lines)),
      append_lines-Above table lines asc,
      omega (arith, max_row-append_lines table lines),
      found,
    )

pub lost-Related :
    (q : Query)
    → (t : Tail) (table : List StoredLine) (s : Stream) → Related q t (table, s)
    → Related q (tail_step q lost t) (follow q lost (table, s))
unfolding tail_step follow on_reply
lost-Related q t table s r = r

-- A reply with some rows and the cursor behind them.
pub answered :
    (q : Query)
    → (out shown : List StoredLine) (s : Stream) → s.stop ≡ false
    → s.lines ≡ last_n log_cap (views_of q shown)
    → let s' = on_reply (returned (logs_view q.atoi (out, max_row s.cursor out))) s in
      (s'.lines ≡ last_n log_cap (views_of q (shown ++ out)))
      × (s'.stop ≡ false)
      × (next_after s' ≡ s'.cursor)
      × (s'.cursor ≡ max_row s.cursor out)
unfolding on_reply logs_view next_after
answered q out shown s stop ls = rw stop (
  extended-last_n s.lines (views_of q shown) (views_of q out) ls
      ∙ ap (last_n log_cap) (sym (views-append q shown out)),
  refl,
  refl,
  ground (arith, max_row_ge s.cursor out),
)

-- The rows that a poll is answered with.
unfoldable pub reply_rows : (q : Query) → (cursor : ℕ) (pending : List StoredLine) → List StoredLine
reply_rows q zero pending = drop (length pending - q.limit) pending
reply_rows q (suc c) pending = take q.limit pending

pub since-reply_rows :
    (q : Query)
    → (table seen pending : List StoredLine) (c : ℕ) → 0 < q.limit
    → rows_of q table ≡ seen ++ pending
    → Within c seen
    → Above c pending
    → since q.like table (q.label ∷ q.labels) c q.limit q.filter q.text
      ≡ (reply_rows q c pending, max_row c (reply_rows q c pending))
unfolding since reply_rows
since-reply_rows q table [] pending zero pos rows within above =
    let e : ltb 0 q.limit ≡ true = ground (arith, pos) in rw (e, rows) refl
since-reply_rows q table (x ∷ seen) pending zero pos rows within above =
    absurd (omega (arith, within.0, within.1))
since-reply_rows q table seen pending (suc c) pos rows within above =
    let e : ltb 0 q.limit ≡ true = ground (arith, pos) in
    let newer : select (λ r. ltb (suc c) r.row_id) (rows_of q table) ≡ pending =
      ap (select (λ r. ltb (suc c) r.row_id)) rows
      ∙ select-append (λ r. ltb (suc c) r.row_id) seen pending
      ∙ ap (λ l. l ++ select (λ r. ltb (suc c) r.row_id) pending)
          (select-Within (suc c) seen within)
      ∙ select-Above (suc c) pending above in
    let later : ltb 0 (suc c) ≡ true = ground arith in rw (e, later, newer) refl

pub tail_poll-first :
    (q : Query)
    → (pending : List StoredLine)
    → let k = length pending - q.limit in
      tail_poll q.limit [] (tail_of q [] [] pending)
      ≡ tail_of q (take k pending) (drop k pending) []
unfolding tail_poll
tail_poll-first q pending =
    let k = length pending - q.limit in
    rw (length-views q pending, views-take q k pending, views-drop q k pending) refl

pub tail_poll-none : (q : Query) → tail_poll q.limit [] (tail_of q [] [] []) ≡ tail_of q [] [] []
unfolding tail_poll
tail_poll-none q = let e : 0 - q.limit ≡ 0 = omega arith in rw e refl

pub tail_poll-later :
    (q : Query)
    → (seen : List LogLine) (skipped shown pending : List StoredLine) → 0 < length seen
    → tail_poll q.limit seen (tail_of q skipped shown pending)
      ≡ tail_of q skipped (shown ++ take q.limit pending) (drop q.limit pending)
unfolding tail_poll
tail_poll-later q [] skipped shown pending h = absurd (omega arith)
tail_poll-later q (x ∷ seen) skipped shown pending h =
    rw
      (
        views-append q shown (take q.limit pending),
        views-take q q.limit pending,
        views-drop q q.limit pending,
      )
      refl
