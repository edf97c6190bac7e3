-- ===== src/Detail/Polls.antt =====
-- Which errors are counted, and which lines of the log are shown.
use marshal_pm.Base.{
  ℕ, ◌+◌, ◌-◌, ◌≤◌, ◌≡◌, map, length, drop, drop-drop, length-drop, ◌∙◌, ap, ◌↔◌, ◌⊎◌, inl, inr,
  refl, arith, Bool, true, false, some, List, [], ◌∷◌, ◌++◌, Text, codes, text_eq, text_eq_iff,
  is_some, strip_prefix, strip_prefix-eq-some, Bool-cases, strip_prefix-append, is_some→eq,
  if◌then◌else◌, Outcome, returned, threw,
}
use marshal_pm.Api.Types.{LogsResponse}
use marshal_pm.LogStream.{Stream, append_capped, extended, on_reply, on_replies}
use marshal_pm.LogStream.Buffer.{last_n, received, on_replies_lem}
use marshal_pm.Detail.{Tail, log_cap, start_tail, tail_done, tail_replies, belongs, count_errors}
use marshal_pm.Detail.Cells.{recent_lines}

-- The hook's state with the same variables.
abbrev pub stream_of : Tail → Stream
stream_of t = record { lines = t.lines; cursor = t.cursor; first = t.first; stop = t.stop }

stream_of-if :
    (b : Bool) (t u : Tail)
    → stream_of (if b then t else u) ≡ (if b then stream_of t else stream_of u)
stream_of-if true t u = refl
stream_of-if false t u = refl

-- What the page keeps of a reply is what the hook keeps of it.
tail_done-on_reply :
    (m : Outcome LogsResponse) (t : Tail) → stream_of (tail_done m t) ≡ on_reply m (stream_of t)
unfolding tail_done on_reply extended append_capped
tail_done-on_reply (threw e) t = refl
tail_done-on_reply (returned r) t = stream_of-if t.stop t _

tail_replies-on_replies :
    (ms : List (Outcome LogsResponse)) (t : Tail)
    → stream_of (tail_replies ms t) ≡ on_replies ms (stream_of t)
unfolding tail_replies on_replies
tail_replies-on_replies [] t = refl
tail_replies-on_replies (m ∷ ms) t =
    tail_replies-on_replies ms (tail_done m t) ∙ ap (on_replies ms) (tail_done-on_reply m t)

-- The last of the last lines.
last_n-last_n : {A : Type 0} (m n : ℕ) (xs : List A) → m ≤ n → last_n m (last_n n xs) ≡ last_n m xs
last_n-last_n m n xs le =
    let k = length xs - n in
    drop-drop (length (drop k xs) - m) k xs
    ∙ ap (λ i. drop i xs) (omega (arith, le, length-drop k xs))

-- The page's own poll of the log does to its lines what the hook of the log views does to its
-- buffer; from its start on it keeps the last 5000 of the lines that the replies brought, and its
-- overview shows the last eight of these, each with its time, its stream and its text, in order.
pub tail_replies_lem :
    (local_time : ℕ → Text) (ms : List (Outcome LogsResponse)) (t : Tail)
    → ((tail_replies ms (start_tail t)).lines ≡ (on_replies ms (stream_of (start_tail t))).lines)
      × ((tail_replies ms (start_tail t)).lines ≡ last_n log_cap (received ms))
      × (recent_lines local_time (tail_replies ms (start_tail t))
          ≡ map
              (λ l. (local_time l.ts, (if l.stderr then codes "er" else codes "tx"), l.text))
              (last_n 8 (received ms)))
unfolding start_tail recent_lines
tail_replies_lem local_time ms t =
    let same = ap (λ (s : Stream). s.lines) (tail_replies-on_replies ms (start_tail t)) in
    let kept = same ∙ (on_replies_lem ms (stream_of (start_tail t)) refl (omega arith)).0 in
    (
      same,
      kept,
      ap
          (λ ls.
            map (λ l. (local_time l.ts, (if l.stderr then codes "er" else codes "tx"), l.text)) ls)
          (ap (last_n 8) kept ∙ last_n-last_n 8 log_cap (received ms) (omega arith)),
    )

-- The label of the process itself, or of one of its instances: `#` and more behind the name.
abbrev pub IsInstance : Text → Text → Type 0
IsInstance proc label = (label ≡ proc) ⊎ ((rest : Text) × (label ≡ (proc ++ codes "#") ++ rest))

belongs_iff : (proc label : Text) → (belongs proc label ≡ true) ↔ IsInstance proc label
unfolding belongs
belongs_iff proc label = (
  λ h. elim (Bool-cases (text_eq label proc)) [
    | inl same ↦ inl ((text_eq_iff label proc).0 same)
    | inr other ↦
        let prefixed : is_some (strip_prefix (proc ++ codes "#") label) ≡ true = ground arith in
        let (rest, e) = is_some→eq (strip_prefix (proc ++ codes "#") label) prefixed in
        inr (rest, strip_prefix-eq-some (proc ++ codes "#") label rest e)
  ],
  λ i. elim i [
    | inl e ↦ rw ((text_eq_iff label proc).1 e) refl
    | inr (rest, e) ↦
        let found : strip_prefix (proc ++ codes "#") label ≡ some rest =
          rw e (strip_prefix-append (proc ++ codes "#") rest) in
        ground arith
  ],
)

-- The errors of a label are counted for a process exactly if it is the label of the process or of
-- an instance of it.
pub count_errors-cons :
    (proc label : Text) (c : ℕ) (rest : List (Text × ℕ))
    → (IsInstance proc label → count_errors proc ((label, c) ∷ rest) ≡ c + count_errors proc rest)
      × (¬ IsInstance proc label → count_errors proc ((label, c) ∷ rest) ≡ count_errors proc rest)
unfolding count_errors
count_errors-cons proc label c rest =
    let b = belongs_iff proc label in
    (
      (λ i. ground (arith, b.1 i)),
      λ n. elim (Bool-cases (belongs proc label)) [
        | inl counted ↦ absurd (n (b.0 counted))
        | inr other ↦ rw other refl
      ],
    )
