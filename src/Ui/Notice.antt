-- ===== src/Ui/Notice.antt =====
-- web/src/components/StatusMessage.tsx: a message that goes away by itself if it reports success.
-- The browser's timers are the list of those that have not run, by number.
pub mod Lifetime
use marshal_pm.Base.{
  ℕ, suc, ◌+◌, Bool, true, false, not, Option, none, some, List, [], ◌∷◌, Text, select, any, ◌==◌,
  if◌then◌else◌,
}

pub data NoticeKind : Type 0 where
  success error info : NoticeKind

pub record Status : Type 0 where
  pub kind : NoticeKind
  pub text : Text

pub record Notice : Type 0 where
  pub status : Option Status
  pub timer : Option ℕ
  pub timers : List ℕ
  pub next_timer : ℕ

unfoldable pub no_notice : Notice
no_notice = record { status = none; timer = none; timers = []; next_timer = 1 }

-- `if (timer.current) window.clearTimeout(timer.current); timer.current = undefined;`
cancel_timer : Notice → Notice
cancel_timer n = elim n.timer [
  | none ↦ n
  | some t ↦ record n { timer = none; timers = select (λ u. not (u == t)) n.timers }
]

unfoldable pub clear : Notice → Notice
unfolding cancel_timer
clear n = record (cancel_timer n) { status = none }

-- `window.setTimeout(…, 4000)`, with its number kept in `timer`.
start_timer : NoticeKind → Notice → Notice
start_timer success n = record n {
  timer = some n.next_timer;
  timers = n.next_timer ∷ n.timers;
  next_timer = n.next_timer + 1;
}
start_timer error n = n
start_timer info n = n

unfoldable pub show : NoticeKind → Text → Notice → Notice
unfolding cancel_timer start_timer
show kind text n =
    start_timer kind
      (record (cancel_timer n) { status = some (record { kind = kind; text = text }) })

-- A timer runs out; one that was cancelled does not.
unfoldable pub fire : ℕ → Notice → Notice
fire t n =
    if any (λ u. u == t) n.timers
    then record n { status = none; timers = select (λ u. not (u == t)) n.timers }
    else n

-- What happens to a notice.
pub data Event : Type 0 where
  shown : NoticeKind → Text → Event
  cleared : Event
  ran_out : ℕ → Event

unfoldable pub step : Notice → Event → Notice
unfolding show clear fire
step n (shown kind text) = show kind text n
step n cleared = clear n
step n (ran_out t) = fire t n

unfoldable pub run : Notice → List Event → Notice
run n [] = n
run n (e ∷ es) = run (step n e) es

-- `StatusMessage`: the class and the text, if there is a status.
unfoldable pub status_message : Option Status → Option (NoticeKind × Text)
status_message none = none
status_message (some s) = some (s.kind, s.text)
