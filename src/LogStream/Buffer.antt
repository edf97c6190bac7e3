-- ===== src/LogStream/Buffer.antt =====
-- What the buffer holds after any replies.
use mathlib.Core.List.{append_assoc, append-nil}
use marshal_pm.Base.{
  ℕ, ◌+◌, ◌-◌, ◌≤◌, ◌≡◌, refl, sym, ap, ◌∙◌, arith, true, false, inl, inr, Bool-cases, List, [],
  ◌∷◌, ◌++◌, length, drop, length-append, length-drop, drop-drop, drop-append_le, ltb, ◌==◌,
  if◌then◌else◌, Outcome, returned, threw,
}
use marshal_pm.Api.Types.{LogLine, LogsResponse}
use marshal_pm.LogStream.{
  log_cap, Stream, append_capped, extended, on_enabled, stop_run, next_after, on_reply, on_replies,
}

-- The last elements of a list, `cap` at most.
abbrev pub last_n {ℓ} : {A : Type ℓ} → ℕ → List A → List A
last_n cap xs = drop (length xs - cap) xs

module _ {ℓ} {A : Type ℓ} where
  append_capped-last_n :
      (cap : ℕ) (xs ys : List A) → append_capped cap xs ys ≡ last_n cap (xs ++ ys)
  unfolding append_capped
  append_capped-last_n cap xs ys = elim (Bool-cases (ltb cap (length (xs ++ ys)))) [
    | inl long ↦ rw long
    | inr short ↦ let e : length (xs ++ ys) - cap ≡ 0 = ground arith in rw short (rw e)
  ]

  -- Keeping the end of a kept end is keeping the end.
  last_n-append :
      (cap : ℕ) (xs ys : List A) → last_n cap (last_n cap xs ++ ys) ≡ last_n cap (xs ++ ys)
  last_n-append cap xs ys =
      let k = length xs - cap in
      let moved = drop-append_le k xs ys (omega arith) in
      let size = length-append xs ys in
      let rest = length-drop k (xs ++ ys) in
      let e : k + (length (drop k (xs ++ ys)) - cap) ≡ length (xs ++ ys) - cap = omega arith in
      rw (← moved)
        (drop-drop (length (drop k (xs ++ ys)) - cap) k (xs ++ ys) ∙ ap (λ n. drop n (xs ++ ys)) e)

  length-last_n : (cap : ℕ) (xs : List A) → length (last_n cap xs) ≤ cap
  length-last_n cap xs = omega (arith, length-drop (length xs - cap) xs)

  last_n_short : (cap : ℕ) (xs : List A) → length xs ≤ cap → last_n cap xs ≡ xs
  last_n_short cap xs h = let e : length xs - cap ≡ 0 = omega arith in rw e

-- All lines of the replies that came.
abbrev pub received : List (Outcome LogsResponse) → List LogLine
received [] = []
received (returned r ∷ rs) = r.lines ++ received rs
received (threw e ∷ rs) = received rs

-- The cursor of the last reply that has one, which a reply without lines may lack.
abbrev pub last_cursor : ℕ → List (Outcome LogsResponse) → ℕ
last_cursor c [] = c
last_cursor c (returned r ∷ rs) = last_cursor (if r.cursor == 0 then c else r.cursor) rs
last_cursor c (threw e ∷ rs) = last_cursor c rs

pub extended-last_n :
    (prev zs added : List LogLine)
    → prev ≡ last_n log_cap zs
    → extended prev added ≡ last_n log_cap (zs ++ added)
unfolding extended
extended-last_n prev zs [] h = rw append-nil h
extended-last_n prev zs (y ∷ added) h =
    let e : ltb 0 (length (y ∷ added)) ≡ true = ground arith in
    rw e (
      append_capped-last_n log_cap prev (y ∷ added)
      ∙ ap (λ l. last_n log_cap (l ++ y ∷ added)) h
      ∙ last_n-append log_cap zs (y ∷ added))

on_replies-last_n :
    (rs : List (Outcome LogsResponse)) (s : Stream) (zs : List LogLine)
    → s.stop ≡ false
    → s.lines ≡ last_n log_cap zs
    → ((on_replies rs s).lines ≡ last_n log_cap (zs ++ received rs))
      × ((on_replies rs s).cursor ≡ last_cursor s.cursor rs)
unfolding on_replies on_reply
on_replies-last_n [] s zs live h = (rw append-nil h, refl)
on_replies-last_n (threw e ∷ rs) s zs live h = on_replies-last_n rs s zs live h
on_replies-last_n (returned r ∷ rs) s zs live h = rw live (
    rw (← append_assoc zs r.lines (received rs))
      (on_replies-last_n rs _ (zs ++ r.lines) refl (extended-last_n s.lines zs r.lines h)))

-- While a run is on, and begins with 5000 lines at most, the buffer holds the last 5000 of the
-- lines that it began with and those that all replies brought, in order, and the next poll asks
-- from the last cursor that was sent.
pub on_replies_lem :
    (rs : List (Outcome LogsResponse)) (s : Stream)
    → s.stop ≡ false
    → length s.lines ≤ log_cap
    → ((on_replies rs s).lines ≡ last_n log_cap (s.lines ++ received rs))
      × (length (on_replies rs s).lines ≤ log_cap)
      × ((on_replies rs s).cursor ≡ last_cursor s.cursor rs)
on_replies_lem rs s live h =
    let (lines, cursor) =
      on_replies-last_n rs s s.lines live (sym (last_n_short log_cap s.lines h)) in
    (lines, rw lines (length-last_n log_cap (s.lines ++ received rs)), cursor)

-- A run that its cleanup has stopped changes nothing any more, whatever replies still arrive.
pub on_replies-stop_run :
    (rs : List (Outcome LogsResponse)) (s : Stream) → on_replies rs (stop_run s) ≡ stop_run s
unfolding on_replies on_reply stop_run
on_replies-stop_run [] s = refl
on_replies-stop_run (threw e ∷ rs) s = on_replies-stop_run rs s
on_replies-stop_run (returned r ∷ rs) s = on_replies-stop_run rs s

-- A buffer of 5000 lines at most that is paused and resumed keeps its lines, and yet the first
-- poll asks from 0: the lines of its reply are put behind the same lines once more, and the last
-- 5000 of all are kept.
pub on_reply-resume :
    (s : Stream) (r : LogsResponse)
    → length s.lines ≤ log_cap
    → (next_after (on_enabled true (on_enabled false s)) ≡ 0)
      × ((on_reply (returned r) (on_enabled true (on_enabled false s))).lines
          ≡ last_n log_cap (s.lines ++ r.lines))
unfolding next_after on_enabled on_reply
on_reply-resume s r h =
    (refl, extended-last_n s.lines s.lines r.lines (sym (last_n_short log_cap s.lines h)))
