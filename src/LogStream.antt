-- ===== src/LogStream.antt =====
-- web/src/hooks/useLogStream.ts, and the same loop in web/src/ProcessDetail.tsx: log lines polled
-- from a cursor into a buffer of bounded length. An effect of the hook starts a run of polls; its
-- cleanup stops that run, whose replies are ignored from then on.
pub mod Buffer
pub mod Tests
use marshal_pm.Base.{
  ℕ, ◌-◌, Bool, true, false, ◌&&◌, not, Option, none, some, List, [], ◌∷◌, ◌++◌, Text, length, drop,
  ltb, ◌==◌, if◌then◌else◌, Outcome, returned, threw,
}
use marshal_pm.Api.Types.{LogLine, LogsResponse}

abbrev pub log_cap : ℕ
log_cap = 5000

-- The state of the hook with the variables of its current run: `first` and `stop`.
pub record Stream : Type 0 where
  pub lines : List LogLine
  pub cursor : ℕ
  pub first : Bool
  pub stop : Bool

-- The updater that `setLines` is given: the new lines behind the old, and only the last `cap`.
unfoldable pub append_capped {ℓ} : {A : Type ℓ} → ℕ → List A → List A → List A
append_capped cap prev added =
    let next = prev ++ added in
    if ltb cap (length next) then drop (length next - cap) next else next

-- `setLines` is not called for a reply without lines.
unfoldable pub extended : List LogLine → List LogLine → List LogLine
extended prev added = if ltb 0 (length added) then append_capped log_cap prev added else prev

-- The effect on the key parameters: the buffer is emptied.
unfoldable pub on_params : Stream → Stream
on_params s = record s { lines = []; cursor = 0 }

-- The effect that polls: nothing while it is disabled, else a run with its own variables.
unfoldable pub start_run : Bool → Stream → Stream
start_run enabled s = if enabled then record s { first = true; stop = false } else s

-- Its cleanup, before the effect runs anew.
unfoldable pub stop_run : Stream → Stream
stop_run s = record s { stop = true }

-- `enabled` changes, and no other parameter: the buffer and the cursor stay.
unfoldable pub on_enabled : Bool → Stream → Stream
unfolding start_run stop_run
on_enabled enabled s = start_run enabled (stop_run s)

-- The cursor that a poll asks from.
unfoldable pub next_after : Stream → ℕ
next_after s = if s.first then 0 else s.cursor

-- What a poll does with its reply; one that failed is skipped.
unfoldable pub on_reply : Outcome LogsResponse → Stream → Stream
on_reply (threw e) s = s
on_reply (returned r) s = if s.stop then s else record s {
  cursor = if r.cursor == 0 then s.cursor else r.cursor;
  first = false;
  lines = extended s.lines r.lines;
}

unfoldable pub clear : Stream → Stream
clear s = record s { lines = []; cursor = 0 }

unfoldable pub on_replies : List (Outcome LogsResponse) → Stream → Stream
on_replies [] s = s
on_replies (r ∷ rs) s = on_replies rs (on_reply r s)
