-- ===== src/LogStore/Drain.antt =====
-- Polls in a row catch up with the log.
use mathlib.Core.List.{append-nil}
use marshal_pm.Base.{
  ℕ, zero, suc, ◌*◌, ◌≡◌, ◌≤◌, ◌<◌, refl, ap, ◌∙◌, arith, true, List, [], ◌∷◌, ◌++◌, length,
  length-drop, length-append, ◌⊎◌, inl, inr, sym, take, ◌-◌,
}
use marshal_pm.Api.Types.{LogLine}
use marshal_pm.LogStream.{Stream, log_cap, start_run, on_params}
use marshal_pm.LogStream.Buffer.{last_n}
use marshal_pm.LogStore.{StoredLine}
use marshal_pm.LogStore.Rows.{Above}
use marshal_pm.LogStore.Follow.{
  Event, polled, Tail, tail_poll, Query, rows_of, views_of, tail_of, follow_all, tail_step,
  tail_steps,
}
use marshal_pm.LogStore.Follow.Refinement.{follow_all-Related, opened-Related, Related-shown}
use native.Mathlib.Nat.{suc-mul, zero-mul}

-- So many polls in a row.
unfoldable pub polls : ℕ → List Event
polls zero = []
polls (suc n) = polled ∷ polls n

tail_poll-pending :
    (limit n : ℕ) (seen : List LogLine) (t : Tail)
    → length t.pending ≤ suc n * limit
    → length (tail_poll limit seen t).pending ≤ n * limit
unfolding tail_poll
tail_poll-pending limit n [] t few = omega arith
tail_poll-pending limit n (x ∷ seen) t few =
    omega (arith, few, suc-mul n limit, length-drop limit t.pending)

length-zero : {A : Type 0} (xs : List A) → length xs ≤ 0 → xs ≡ []
length-zero [] h = refl
length-zero (x ∷ xs) h = absurd (omega arith)

tail_polls-pending :
    (q : Query) (n : ℕ) (t : Tail)
    → length t.pending ≤ n * q.limit
    → (tail_steps q (polls n) t).pending ≡ []
unfolding tail_steps tail_step tail_poll polls
tail_polls-pending q zero t few = length-zero t.pending (omega (arith, few, zero-mul q.limit))
tail_polls-pending q (suc n) t few =
    tail_polls-pending q n (tail_poll q.limit (t.skipped ++ t.shown) t)
      (tail_poll-pending q.limit n (t.skipped ++ t.shown) t few)

-- The lines that polls in a row leave out: where a line was found before, those left out before,
-- and otherwise all but the newest `limit` of the lines that are pending when the first is sent.
abbrev pub cut : (limit : ℕ) (seen : List LogLine) → Tail → List LogLine
cut limit [] t = take (length t.pending - limit) t.pending
cut limit (x ∷ seen) t = t.skipped

-- A poll finds nothing, or is not the first that finds lines.
abbrev IsSettled : List LogLine → Tail → Type 0
IsSettled seen t = (t.pending ≡ []) ⊎ (0 < length seen)

take-nil : (k : ℕ) → take {A = LogLine} k [] ≡ []
take-nil zero = refl
take-nil (suc k) = refl

tail_poll-IsSettled :
    (limit : ℕ) (seen : List LogLine) (t : Tail)
    → seen ≡ t.skipped ++ t.shown
    → let u = tail_poll limit seen t in IsSettled (u.skipped ++ u.shown) u
unfolding tail_poll
tail_poll-IsSettled limit [] t e = inl refl
tail_poll-IsSettled limit (x ∷ seen) t e =
    let size : suc (length seen) ≡ length (t.skipped ++ t.shown) = ap length e in
    inr (
      omega (
        arith,
        size,
        length-append t.skipped t.shown,
        length-append t.skipped (t.shown ++ take limit t.pending),
        length-append t.shown (take limit t.pending),
      ))

tail_poll-skipped :
    (limit : ℕ) (seen : List LogLine) (t : Tail)
    → seen ≡ t.skipped ++ t.shown
    → IsSettled seen t
    → (tail_poll limit seen t).skipped ≡ t.skipped
unfolding tail_poll
tail_poll-skipped limit (x ∷ seen) t e settled = refl
tail_poll-skipped limit [] t e settled = elim settled [
  | inl none_left ↦
      let none_skipped : t.skipped ≡ [] =
        length-zero t.skipped (omega (arith, ap length e, length-append t.skipped t.shown)) in
      rw (none_left, none_skipped) (take-nil _)
  | inr found ↦ absurd (omega arith)
]

settled_polls :
    (q : Query) (n : ℕ) (t : Tail)
    → IsSettled (t.skipped ++ t.shown) t
    → (tail_steps q (polls n) t).skipped ≡ t.skipped
unfolding tail_steps tail_step polls
settled_polls q zero t settled = refl
settled_polls q (suc n) t settled =
    let u = tail_poll q.limit (t.skipped ++ t.shown) t in
    settled_polls q n u (tail_poll-IsSettled q.limit (t.skipped ++ t.shown) t refl)
    ∙ tail_poll-skipped q.limit (t.skipped ++ t.shown) t refl settled

tail_poll-cut :
    (limit : ℕ) (seen : List LogLine) (t : Tail)
    → (tail_poll limit seen t).skipped ≡ cut limit seen t
unfolding tail_poll
tail_poll-cut limit [] t = refl
tail_poll-cut limit (x ∷ seen) t = refl

polls-cut :
    (q : Query) (n : ℕ) (t : Tail)
    → length t.pending ≤ n * q.limit
    → (tail_steps q (polls n) t).skipped ≡ cut q.limit (t.skipped ++ t.shown) t
unfolding tail_steps tail_step polls
polls-cut q zero t few =
    let settled : IsSettled (t.skipped ++ t.shown) t =
      inl (length-zero t.pending (omega (arith, few, zero-mul q.limit))) in
    sym (tail_poll-skipped q.limit (t.skipped ++ t.shown) t refl settled)
    ∙ tail_poll-cut q.limit (t.skipped ++ t.shown) t
polls-cut q (suc n) t few =
    let u = tail_poll q.limit (t.skipped ++ t.shown) t in
    settled_polls q n u (tail_poll-IsSettled q.limit (t.skipped ++ t.shown) t refl)
    ∙ tail_poll-cut q.limit (t.skipped ++ t.shown) t

tail_steps-append :
    (q : Query) (xs ys : List Event) (t : Tail)
    → tail_steps q (xs ++ ys) t ≡ tail_steps q ys (tail_steps q xs t)
unfolding tail_steps
tail_steps-append q [] ys t = refl
tail_steps-append q (x ∷ xs) ys t = tail_steps-append q xs ys (tail_step q x t)

-- After the opening of a page, over a table whose row ids ascend and with a limit above 0, and
-- after any sequence of insertions and polls: where `n` polls may bring all lines that are still to
-- be shown, and are answered in a row, all lines of the table that match are then skipped or shown,
-- and the buffer holds the last 5000 of those that are shown. Skipped are, where the page had found
-- a line before these polls, only the lines that it had skipped before, and otherwise all but the
-- newest `limit` of the lines that were still to be shown before these polls, be they from before
-- the opening or not.
pub follow_all-polls :
    (q : Query) (table : List StoredLine) (s : Stream) (es : List Event) (n : ℕ)
    → 0 < q.limit
    → Above 0 table
    → length (tail_steps q es (tail_of q [] [] (rows_of q table))).pending ≤ n * q.limit
    → let w = follow_all q (es ++ polls n) (table, start_run true (on_params s)) in
      let t = tail_steps q (es ++ polls n) (tail_of q [] [] (rows_of q table)) in
      (views_of q (rows_of q w.0) ≡ t.skipped ++ t.shown)
      × (w.1.lines ≡ last_n log_cap t.shown)
      × (let before = tail_steps q es (tail_of q [] [] (rows_of q table)) in
          t.skipped ≡ cut q.limit (before.skipped ++ before.shown) before)
follow_all-polls q table s es n pos asc few =
    let t0 = tail_of q [] [] (rows_of q table) in
    let w0 : List StoredLine × Stream = (table, start_run true (on_params s)) in
    let t = tail_steps q (es ++ polls n) t0 in
    let (lines, rows) =
      Related-shown q t (follow_all q (es ++ polls n) w0)
        (follow_all-Related q (es ++ polls n) t0 w0 pos (opened-Related q table s asc)) in
    let none_left : t.pending ≡ [] =
      ap (λ u. u.pending) (tail_steps-append q es (polls n) t0)
      ∙ tail_polls-pending q n (tail_steps q es t0) few in
    (
      rows ∙ ap ((t.skipped ++ t.shown) ++◌) none_left ∙ append-nil (t.skipped ++ t.shown),
      lines,
      ap (λ u. u.skipped) (tail_steps-append q es (polls n) t0)
          ∙ polls-cut q n (tail_steps q es t0) few,
    )
