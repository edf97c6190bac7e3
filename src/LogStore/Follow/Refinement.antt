-- ===== src/LogStore/Follow/Refinement.antt =====
-- A run of the hook of web/src/hooks/useLogStream.ts follows the log.
use mathlib.Core.Path.{subst}
use mathlib.Core.List.{append_assoc, append-nil}
use marshal_pm.Base.{
  ℕ, zero, suc, ◌-◌, ◌≡◌, ◌≤◌, ◌<◌, ◌⊎◌, refl, ap, sym, ◌∙◌, arith, true, inl, inr, List, [], ◌∷◌,
  ◌++◌, length, take, drop, take-drop, length-append, length-drop, returned,
}
use marshal_pm.LogStream.{Stream, log_cap, next_after, on_reply, start_run, on_params}
use marshal_pm.LogStream.Buffer.{last_n}
use marshal_pm.LogStore.{StoredLine, max_row, matches, since, logs_view}
use marshal_pm.LogStore.Rows.{
  Above, Within, Within-mono, Within-append, Within-append_right, max_row_ge, max_row-Within,
  Above-drop, Above-take, max_row-drop, Above-select, Within-append_left, max_row-Within_le,
}
use marshal_pm.LogStore.Follow.{
  Event, stored, polled, lost, Tail, Query, rows_of, views_of, tail_of, follow, follow_all,
  tail_step, tail_steps, Related,
}
use marshal_pm.LogStore.Follow.Views.{views-append, length-views}
use marshal_pm.LogStore.Follow.Steps.{
  Within-rows, stored-Related, lost-Related, answered, reply_rows, since-reply_rows,
  tail_poll-first, tail_poll-none, tail_poll-later,
}

-- How a poll moves the lines that are pending.
polled_rows :
    (q : Query)
    → (c : ℕ) (skipped shown pending : List StoredLine) → 0 < q.limit
    → Within c (skipped ++ shown)
    → Above c pending
    → ((c ≡ 0) ⊎ (0 < length (skipped ++ shown)))
    → let out = reply_rows q c pending in
      (before : List StoredLine) × (left : List StoredLine) × ((before ++ (shown ++ out)) ++ left
        ≡ (skipped ++ shown) ++ pending)
      × (tail_step q polled (tail_of q skipped shown pending)
          ≡ tail_of q before (shown ++ out) left)
      × Within (max_row c out) (before ++ (shown ++ out))
      × Above (max_row c out) left
      × ((max_row c out ≡ 0) ⊎ (0 < length (before ++ (shown ++ out))))
unfolding reply_rows tail_step max_row
polled_rows q zero [] [] [] pos within above found =
    let e : 0 - q.limit ≡ 0 = omega arith in rw e ([], [], refl, tail_poll-none q, tt, tt, inl refl)
polled_rows q zero [] [] (r ∷ rs) pos within above found =
    let p = r ∷ rs in
    let k = length p - q.limit in
    (
      take k p,
      [],
      append-nil _ ∙ take-drop k p,
      tail_poll-first q p,
      subst (Within (max_row 0 (drop k p))) (sym (take-drop k p)) (
          subst (λ m. Within m p) (sym (max_row-drop k 0 p above (omega (arith, pos))))
            (max_row-Within 0 p above)),
      tt,
      inr (omega (arith, length-append (take k p) (drop k p), length-drop k p)),
    )
polled_rows q zero [] (x ∷ shown) pending pos within above found =
    absurd (omega (arith, within.0, within.1))
polled_rows q zero (x ∷ skipped) shown pending pos within above found =
    absurd (omega (arith, within.0, within.1))
polled_rows q (suc c) skipped shown pending pos within above found =
    let out = take q.limit pending in
    let rest = drop q.limit pending in
    let m = max_row (suc c) out in
    let seen : 0 < length (skipped ++ shown) = ground (arith, found) in
    let views_seen : 0 < length (views_of q skipped ++ views_of q shown) =
      rw (← views-append q skipped shown, length-views q (skipped ++ shown)) seen in
    let Within-out : Within m (skipped ++ (shown ++ out)) = rw (← append_assoc skipped shown out) (
      Within-append m (skipped ++ shown) out
        (Within-mono (suc c) m (skipped ++ shown) (max_row_ge (suc c) out) within)
        (max_row-Within (suc c) out (Above-take q.limit (suc c) pending above))) in
    (
      skipped,
      rest,
      ap (λ l. l ++ rest) (sym (append_assoc skipped shown out))
          ∙ append_assoc (skipped ++ shown) out rest
          ∙ ap (λ l. (skipped ++ shown) ++ l) (take-drop q.limit pending),
      tail_poll-later q (views_of q skipped ++ views_of q shown) skipped shown pending views_seen,
      Within-out,
      Above-drop q.limit (suc c) pending above,
      inr (
          omega (
            arith,
            seen,
            length-append skipped shown,
            length-append skipped (shown ++ out),
            length-append shown out,
          )),
    )

polled-Related :
    (q : Query)
    → (t : Tail) (table : List StoredLine) (s : Stream) → 0 < q.limit
    → Related q t (table, s)
    → Related q (tail_step q polled t) (follow q polled (table, s))
unfolding follow
polled-Related q t table s pos
      (skipped, shown, pending, rows, view, ls, stop, next, within, above, asc, le, found) =
    let seen = skipped ++ shown in
    let out = reply_rows q s.cursor pending in
    let (before, left, all, step, within', above', found') =
      polled_rows q s.cursor skipped shown pending pos within above found in
    let m = max_row s.cursor out in
    let s' = on_reply (returned (logs_view q.atoi (out, m))) s in
    let ask : follow q polled (table, s) ≡ (table, s') =
      ap
        (λ c. (
          table,
          on_reply
              (returned (
                logs_view q.atoi
                  (since q.like table (q.label ∷ q.labels) c q.limit q.filter q.text)))
              s,
        ))
        next
      ∙ ap (λ r. (table, on_reply (returned (logs_view q.atoi r)) s))
          (since-reply_rows q table seen pending s.cursor pos rows within above) in
    let (ls', stop', next', cur) = answered q out shown s stop ls in
    let fits =
      Within-append_left (max_row 0 table) (before ++ (shown ++ out)) left
        (subst (Within (max_row 0 table)) (sym all) (Within-rows q table seen pending asc rows)) in
    let fits_out =
      Within-append_right (max_row 0 table) shown out
        (Within-append_right (max_row 0 table) before (shown ++ out) fits) in
    subst (Related q (tail_step q polled t)) (sym ask) (
      before,
      shown ++ out,
      left,
      rows ∙ sym all,
      ap (tail_step q polled) view ∙ step,
      ls',
      stop',
      next',
      subst (λ c. Within c (before ++ (shown ++ out))) (sym cur) within',
      subst (λ c. Above c left) (sym cur) above',
      asc,
      subst (λ c. c ≤ max_row 0 table) (sym cur)
          (max_row-Within_le s.cursor (max_row 0 table) out le fits_out),
      subst (λ c. (c ≡ 0) ⊎ (0 < length (before ++ (shown ++ out)))) (sym cur) found',
    )

follow-Related :
    (q : Query)
    → (e : Event) (t : Tail) (w : List StoredLine × Stream) → 0 < q.limit
    → Related q t w
    → Related q (tail_step q e t) (follow q e w)
follow-Related q (stored lines) t (table, s) pos r = stored-Related q lines t table s r
follow-Related q polled t (table, s) pos r = polled-Related q t table s pos r
follow-Related q lost t (table, s) pos r = lost-Related q t table s r

pub follow_all-Related :
    (q : Query)
    → (es : List Event) (t : Tail) (w : List StoredLine × Stream) → 0 < q.limit
    → Related q t w
    → Related q (tail_steps q es t) (follow_all q es w)
unfolding follow_all tail_steps
follow_all-Related q [] t w pos r = r
follow_all-Related q (e ∷ es) t w pos r =
    follow_all-Related q es (tail_step q e t) (follow q e w) pos (follow-Related q e t w pos r)

-- A page that has just been opened, over a table.
pub opened-Related :
    (q : Query) (table : List StoredLine) (s : Stream)
    → Above 0 table
    → Related q (tail_of q [] [] (rows_of q table)) (table, start_run true (on_params s))
unfolding start_run on_params next_after
opened-Related q table s asc = (
  [],
  [],
  rows_of q table,
  refl,
  refl,
  refl,
  refl,
  refl,
  tt,
  Above-select (matches q.like (q.label ∷ q.labels) q.filter q.text) 0 table asc,
  asc,
  omega arith,
  inl refl,
)

-- What is shown and kept of a page's log.
pub Related-shown :
    (q : Query) (t : Tail) (w : List StoredLine × Stream)
    → Related q t w
    → (w.1.lines ≡ last_n log_cap t.shown)
      × (views_of q (rows_of q w.0) ≡ (t.skipped ++ t.shown) ++ t.pending)
Related-shown q t (table, s) (skipped, shown, pending, rows, view, ls, _, _, _, _, _, _, _) = (
  ls ∙ ap (λ u. last_n log_cap u.shown) (sym view),
  ap (views_of q) rows
      ∙ views-append q (skipped ++ shown) pending
      ∙ ap (λ l. l ++ views_of q pending) (views-append q skipped shown)
      ∙ ap (λ u. (u.skipped ++ u.shown) ++ u.pending) (sym view),
)

-- From the opening of a page, over a table whose row ids ascend and with a limit above 0, and
-- through any sequence of insertions, polls that are answered one after the other, and polls that
-- fail: the hook's buffer holds the last 5000 of the lines that the abstract view of the same
-- sequence has shown, and the lines of the table that match are, in their order, those that the
-- view has skipped, has shown and has still to show.
pub follow_all_lem :
    (q : Query) (table : List StoredLine) (s : Stream) (es : List Event)
    → 0 < q.limit
    → Above 0 table
    → let w = follow_all q es (table, start_run true (on_params s)) in
      let t = tail_steps q es (tail_of q [] [] (rows_of q table)) in
      (w.1.lines ≡ last_n log_cap t.shown)
      × (views_of q (rows_of q w.0) ≡ (t.skipped ++ t.shown) ++ t.pending)
follow_all_lem q table s es pos asc =
    Related-shown q (tail_steps q es (tail_of q [] [] (rows_of q table)))
      (follow_all q es (table, start_run true (on_params s)))
      (follow_all-Related q es (tail_of q [] [] (rows_of q table))
        (table, start_run true (on_params s)) pos (opened-Related q table s asc))
