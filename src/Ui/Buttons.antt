-- ===== src/Ui/Buttons.antt =====
-- web/src/ControlButtons.tsx and web/src/RestartAllButton.tsx: operations on a process that ask
-- before they are sent. A handler that waits is two functions: what it does before it waits, and
-- after, with the outcome of the call. The timers are those that clear the message, by number.
pub mod Flow
use marshal_pm.Base.{
  ℕ, suc, ◌+◌, Bool, true, false, not, ◌&&◌, ◌||◌, Option, none, some, List, [], ◌∷◌, ◌++◌, Text,
  codes, has, or_else, select, any, ◌==◌, if◌then◌else◌, Outcome, returned, threw,
}
use marshal_pm.Api.Types.{ControlResult}
use marshal_pm.Api.Http.{Fetch, nullish}
use marshal_pm.Api.Apps.{Action, restart, stop, reload, reset, flush, control, action_name}

-- The state, over the type of what is asked: an operation and its label, or only that.
pub record Buttons (Q : Type 0) : Type 0 where
  pub pending : Option Q
  pub busy : Bool
  pub msg : Text
  pub timers : List ℕ
  pub next_timer : ℕ

module _ {Q : Type 0} where
  unfoldable pub idle : Buttons Q
  idle = record { pending = none; busy = false; msg = []; timers = []; next_timer = 1 }

  -- `setPending(null); setBusy(true); setMsg("")`.
  unfoldable pub begin_fire : Buttons Q → Buttons Q
  begin_fire b = record b { pending = none; busy = true; msg = [] }

  -- After the call: the message, and a timer that clears it. A rejected call ends the handler.
  unfoldable pub end_fire : Outcome ControlResult → Buttons Q → Buttons Q
  end_fire (threw e) b = b
  end_fire (returned res) b = record b {
    busy = false;
    msg = if res.ok then codes "✓" else or_else (nullish res.error []) (codes "error");
    timers = b.next_timer ∷ b.timers;
    next_timer = b.next_timer + 1;
  }

  unfoldable pub timer_fires : ℕ → Buttons Q → Buttons Q
  timer_fires t b =
      if any (λ u. u == t) b.timers
      then record b { msg = []; timers = select (λ u. not (u == t)) b.timers }
      else b

  unfoldable pub ask : Q → Buttons Q → Buttons Q
  ask q b = record b { msg = []; pending = some q }

  unfoldable pub cancel : Buttons Q → Buttons Q
  cancel b = record b { pending = none }

-- What is shown: a mark while a call runs, the question, or the buttons.
pub data Face : Type 0 where
  waiting question buttons : Face

unfoldable pub face : {Q : Type 0} → Buttons Q → Face
face b = if b.busy then waiting else elim b.pending [ none ↦ buttons | some q ↦ question ]

module _ {N : Type 0} (fetch : Fetch N ControlResult) where
  -- `fire` of `ControlButtons`, and of `RestartAllButton` on the selector "all".
  unfoldable pub fire :
      (agent proc : Text) → Action → Buttons (Action × Text) → Buttons (Action × Text)
  unfolding begin_fire end_fire
  fire agent proc op b = end_fire (control fetch agent proc op) (begin_fire b)

  unfoldable pub fire_all : Text → Buttons (Unit {0}) → Buttons (Unit {0})
  unfolding begin_fire end_fire
  fire_all agent b = end_fire (control fetch agent (codes "all") restart) (begin_fire b)

-- `!["stopped", "errored"].includes(state)`.
unfoldable pub is_running : Text → Bool
unfolding has
is_running state = not (has state (codes "stopped" ∷ codes "errored" ∷ []))

-- The buttons that are enabled: start, those of a running process, and those of any.
unfoldable pub start_enabled : Bool → Text → Bool
unfolding is_running
start_enabled connected state = connected && not (is_running state)

unfoldable pub running_enabled : Bool → Text → Bool
unfolding is_running
running_enabled connected state = connected && is_running state

unfoldable pub always_enabled : Bool → Bool
always_enabled connected = connected

-- The five operations that ask first, each under its own name.
unfoldable pub question_of : Action → Action × Text
question_of op = (op, action_name op)
