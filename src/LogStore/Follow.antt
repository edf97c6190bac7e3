-- ===== src/LogStore/Follow.antt =====
-- The hook of web/src/hooks/useLogStream.ts polling the store: a run of it follows the log.
pub mod Views
pub mod Steps
pub mod Refinement
use mathlib.Core.Path.{subst}
use mathlib.Core.List.{append_assoc, append-nil}
use marshal_pm.Base.{
  ℕ, zero, suc, ◌+◌, ◌-◌, ◌≡◌, ◌≤◌, ◌<◌, ◌⊎◌, refl, ap, sym, ◌∙◌, arith, Bool, true, false, inl,
  inr, Bool-cases, List, [], ◌∷◌, ◌++◌, Text, codes, length, take, drop, select, map, ltb, ◌==◌,
  if◌then◌else◌, take-drop, length-append, length-drop, Outcome, returned, threw,
}
use marshal_pm.Api.Types.{LogLine, LogsResponse}
use marshal_pm.LogStream.{Stream, log_cap, extended, next_after, on_reply}
use marshal_pm.LogStream.Buffer.{last_n, extended-last_n}
use marshal_pm.LogStore.{
  StoredLine, StreamFilter, max_row, append_lines, limited, newest, matches, since, view_of,
  logs_view,
}
use marshal_pm.LogStore.Rows.{
  Above, Within, Above-mono, Within-mono, Within-append, Within-append_right, max_row_ge,
  max_row-Within, Above-drop, Above-take, max_row-drop, Above-append, Above-select, Within-select,
  select-append, Within-append_left, max_row-Within_le, select-Within, select-Above, numbered,
  numbered-Above, append_lines-numbered, append_lines-Above, max_row-append_lines,
}

-- What happens while the page is open: lines are stored, a poll is answered before the next one is
-- sent, or it fails.
pub data Event : Type 0 where
  stored : List StoredLine → Event
  polled lost : Event

-- The abstract view: of the lines that match, those that the page never shows, those that it was
-- given, and those that are still to come.
pub record Tail : Type 0 where
  pub skipped : List LogLine
  pub shown : List LogLine
  pub pending : List LogLine

-- The first poll that finds lines shows the newest `limit`, each later one the next `limit`.
unfoldable pub tail_poll : ℕ → List LogLine → Tail → Tail
tail_poll limit [] t =
    let k = length t.pending - limit in
    record { skipped = take k t.pending; shown = drop k t.pending; pending = [] }
tail_poll limit (x ∷ seen) t = record t {
  shown = t.shown ++ take limit t.pending;
  pending = drop limit t.pending;
}

-- What a page asks for, and what the store answers with. The labels are fixed, where the server
-- finds those of the process anew at every poll.
pub record Query : Type 0 where
  pub like : (pattern text : Text) → Bool
  pub atoi : Text → ℕ
  pub label : Text
  pub labels : List Text
  pub filter : StreamFilter
  pub text : Text
  pub limit : ℕ

-- The rows of a table that the page is about.
abbrev pub rows_of : (q : Query) → List StoredLine → List StoredLine
rows_of q table = select (matches q.like (q.label ∷ q.labels) q.filter q.text) table

abbrev pub views_of : (q : Query) → List StoredLine → List LogLine
views_of q rows = map (view_of q.atoi) rows

abbrev pub tail_of : (q : Query) → (skipped shown pending : List StoredLine) → Tail
tail_of q skipped shown pending = record {
  skipped = views_of q skipped;
  shown = views_of q shown;
  pending = views_of q pending;
}

-- The server and the hook: one event, and a sequence of them.
unfoldable pub follow : (q : Query) → Event → List StoredLine × Stream → List StoredLine × Stream
follow q (stored lines) (table, s) = (append_lines table lines, s)
follow q lost (table, s) = (table, on_reply (threw []) s)
follow q polled (table, s) = (
  table,
  on_reply
      (returned (
        logs_view q.atoi
          (since q.like table (q.label ∷ q.labels) (next_after s) q.limit q.filter q.text)))
      s,
)

unfoldable pub follow_all :
    (q : Query) → List Event → List StoredLine × Stream → List StoredLine × Stream
follow_all q [] w = w
follow_all q (e ∷ es) w = follow_all q es (follow q e w)

-- The same events on the abstract view.
unfoldable pub tail_step : (q : Query) → Event → Tail → Tail
tail_step q (stored lines) t = record t { pending = t.pending ++ views_of q (rows_of q lines) }
tail_step q lost t = t
tail_step q polled t = tail_poll q.limit (t.skipped ++ t.shown) t

unfoldable pub tail_steps : (q : Query) → List Event → Tail → Tail
tail_steps q [] t = t
tail_steps q (e ∷ es) t = tail_steps q es (tail_step q e t)

-- The table and the hook's state stand for an abstract view.
abbrev pub Related : (q : Query) → Tail → List StoredLine × Stream → Type 0
Related q t (table, s) =
    (skipped : List StoredLine) × (shown : List StoredLine) × (pending : List StoredLine) × (rows_of
        q table
      ≡ (skipped ++ shown) ++ pending)
    × (t ≡ tail_of q skipped shown pending)
    × (s.lines ≡ last_n log_cap (views_of q shown))
    × (s.stop ≡ false)
    × (next_after s ≡ s.cursor)
    × Within s.cursor (skipped ++ shown)
    × Above s.cursor pending
    × Above 0 table
    × (s.cursor ≤ max_row 0 table)
    × ((s.cursor ≡ 0) ⊎ (0 < length (skipped ++ shown)))
