-- ===== src/Ui/Notice/Lifetime.antt =====
-- How long a message is shown.
use mathlib.Core.Path.{subst}
use marshal_pm.Base.{
  sym, Bool-cases, ◌≢◌, ◌∙◌, ap, ℕ, ◌≡◌, ◌⊎◌, refl, inl, inr, arith, some, List, [], ◌∷◌, Text,
  ◌==◌,
}
use marshal_pm.Ui.Notice.{
  NoticeKind, success, error, info, Notice, no_notice, cancel_timer, clear, start_timer, show, fire,
  Event, shown, cleared, ran_out, step, run,
}

-- The only timer that may still run is the current one, and it was started for the message that is
-- shown, which reports success.
abbrev pub IsTidy : Notice → Type 0
IsTidy n =
    (n.timers ≡ [])
    ⊎ ((t : ℕ) × (text : Text) × (n.timer ≡ some t)
        × (n.timers ≡ t ∷ [])
        × (n.status ≡ some (record { kind = success; text = text })))

cancel_timer_lem : (n : Notice) → IsTidy n → (cancel_timer n).timers ≡ []
unfolding cancel_timer
cancel_timer_lem n h = ground arith

show-IsTidy : (kind : NoticeKind) (text : Text) (n : Notice) → IsTidy n → IsTidy (show kind text n)
unfolding show
show-IsTidy success text n h = inr (
  (cancel_timer n).next_timer,
  text,
  refl,
  ap ((cancel_timer n).next_timer ∷◌) (cancel_timer_lem n h),
  refl,
)
show-IsTidy error text n h = inl (cancel_timer_lem n h)
show-IsTidy info text n h = inl (cancel_timer_lem n h)

fire-IsTidy : (t : ℕ) (n : Notice) → IsTidy n → IsTidy (fire t n)
unfolding fire
fire-IsTidy t n (inl e) = inl (ground arith)
fire-IsTidy t n (inr (u, text, timer, timers, status)) = elim (Bool-cases (u == t)) [
  | inl same ↦ inl (ground arith)
  | inr other ↦
      let q : fire t n ≡ n = ground arith in
      subst IsTidy (sym q) (inr (u, text, timer, timers, status))
]

clear-IsTidy : (n : Notice) → IsTidy n → IsTidy (clear n)
unfolding clear
clear-IsTidy n h = inl (cancel_timer_lem n h)

step-IsTidy : (n : Notice) (e : Event) → IsTidy n → IsTidy (step n e)
unfolding step
step-IsTidy n (shown kind text) h = show-IsTidy kind text n h
step-IsTidy n cleared h = clear-IsTidy n h
step-IsTidy n (ran_out t) h = fire-IsTidy t n h

run-IsTidy_from : (es : List Event) (n : Notice) → IsTidy n → IsTidy (run n es)
unfolding run
run-IsTidy_from [] n h = h
run-IsTidy_from (e ∷ es) n h = run-IsTidy_from es (step n e) (step-IsTidy n e h)

no_notice-IsTidy : IsTidy no_notice
unfolding no_notice
no_notice-IsTidy = inl refl

-- Whatever was shown and cleared before, and whichever timers ran out, at most one timer is left:
-- that of the message which is shown, and that message reports success.
pub run-IsTidy : (es : List Event) → IsTidy (run no_notice es)
run-IsTidy es = run-IsTidy_from es no_notice no_notice-IsTidy

pub fires : List ℕ → Notice → Notice
fires [] n = n
fires (t ∷ ts) n = fires ts (fire t n)

fire_idle : (t : ℕ) (n : Notice) → n.timers ≡ [] → fire t n ≡ n
unfolding fire
fire_idle t n h = ground arith

fires_idle : (ts : List ℕ) (n : Notice) → n.timers ≡ [] → fires ts n ≡ n
unfolding fires
fires_idle [] n h = refl
fires_idle (t ∷ ts) n h = ap (fires ts) (fire_idle t n h) ∙ fires_idle ts n h

unstarted_error : (n : Notice) → start_timer error n ≡ n
unfolding start_timer
unstarted_error n = refl

unstarted_info : (n : Notice) → start_timer info n ≡ n
unfolding start_timer
unstarted_info n = refl

-- No timer is started for such a message, and the old one is cancelled.
show_unfading :
    (es : List Event) (ts : List ℕ) (kind : NoticeKind) (text : Text)
    → ((n : Notice) → start_timer kind n ≡ n)
    → (fires ts (show kind text (run no_notice es))).status
      ≡ some (record { kind = kind; text = text })
unfolding show
show_unfading es ts kind text h =
    let n = show kind text (run no_notice es) in
    let q = h (record (cancel_timer (run no_notice es)) {
      status = some (record { kind = kind; text = text });
    }) in
    ap (λ (m : Notice). m.status)
      (fires_idle ts n (ap (λ (m : Notice). m.timers) q ∙ cancel_timer_lem _ (run-IsTidy es)))
    ∙ ap (λ (m : Notice). m.status) q

-- A message that reports no success stays, after any history and whichever timers run out later.
pub show_stays :
    (es : List Event) (ts : List ℕ) (kind : NoticeKind) (text : Text)
    → kind ≢ success
    → (fires ts (show kind text (run no_notice es))).status
      ≡ some (record { kind = kind; text = text })
show_stays es ts success text h = absurd (h refl)
show_stays es ts error text h = show_unfading es ts error text unstarted_error
show_stays es ts info text h = show_unfading es ts info text unstarted_info
