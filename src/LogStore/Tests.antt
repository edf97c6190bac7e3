-- ===== src/LogStore/Tests.antt =====
-- Runs on a small log.
use marshal_pm.LogStore.{parse_limit}
use marshal_pm.Base.{
  none, ℕ, ◌*◌, ◌≡◌, ◌≤◌, refl, arith, true, false, List, [], ◌∷◌, ◌++◌, Text, codes, length,
  if◌then◌else◌, text_eq, has,
}
use marshal_pm.LogStream.{
  Stream, log_cap, start_run, on_params, on_reply, next_after, extended, append_capped,
}
use marshal_pm.LogStream.Buffer.{last_n}
use marshal_pm.LogStore.{
  StoredLine, any_stream, max_row, append_lines, insert_line, since, logs_view,
}
use marshal_pm.LogStore.Rows.{Above, Within}
use marshal_pm.LogStore.Queries.{since_bounds}
use marshal_pm.LogStore.Follow.{
  Event, stored, polled, lost, tail_poll, Query, rows_of, views_of, tail_of, follow, follow_all,
  tail_step, tail_steps,
}
use marshal_pm.LogStore.Follow.Refinement.{follow_all_lem}
use marshal_pm.Base.{All, Among}
use marshal_pm.LogStore.Overlap.{
  Wire, WireEvent, asked, arrived, wire_step, wire_steps, wire_opened,
}
use marshal_pm.LogStore.Overlap.Genuine.{wire_steps_lem}
use marshal_pm.LogStore.Drain.{polls, cut, follow_all-polls}

abbrev line_of : Text → Text → StoredLine
line_of label text = record { row_id = 0; ts = 7; label = label; stderr = false; text = text }

abbrev api_label : Text
api_label = codes "api#0"

abbrev row_of : ℕ → Text → Text → StoredLine
row_of k label text = record (line_of label text) { row_id = k }

abbrev small_table : List StoredLine
small_table =
    row_of 3 api_label (codes "up")
    ∷ row_of 4 (codes "web#1") (codes "x")
    ∷ row_of 8 api_label (codes "down")
    ∷ []

ascending : Above 0 small_table
ascending = (omega arith, (omega arith, (omega arith, tt)))

abbrev api_query : Query
api_query = record {
  like = λ pattern text. true;
  atoi = λ text. if text_eq text (codes "0") then 0 else 1;
  label = api_label;
  labels = [];
  filter = any_stream;
  text = [];
  limit = 1;
}

abbrev idle_stream : Stream
idle_stream = record { lines = []; cursor = 0; first = false; stop = true }

abbrev run_events : List Event
run_events =
    polled
    ∷ stored (
        line_of api_label (codes "one")
        ∷ line_of api_label (codes "two")
        ∷ line_of (codes "web#1") (codes "y")
        ∷ [])
    ∷ lost
    ∷ polled
    ∷ []

inserted : max_row 0 (append_lines small_table (line_of api_label (codes "one") ∷ [])) ≡ 9
unfolding max_row append_lines insert_line
inserted = refl

abbrev opened : List StoredLine × Stream
opened = (small_table, start_run true (on_params idle_stream))

-- The newest line on opening, and the first of the two that came later.
run_cursor : ((follow_all api_query run_events opened).1).cursor ≡ 9
unfolding follow_all follow start_run on_params on_reply next_after logs_view since append_lines
    insert_line max_row has text_eq
run_cursor = refl

abbrev shown_of : Event → List StoredLine × Stream → ℕ
shown_of e w = length ((follow api_query e w).1).lines

run_shown : shown_of polled (follow_all api_query run_events opened) ≡ 3
unfolding follow_all follow start_run on_params on_reply next_after logs_view since extended
    append_lines append_capped insert_line max_row has text_eq
run_shown = refl

since_bounds_example :
    let r = since api_query.like small_table (api_label ∷ []) 3 500 any_stream (codes "o") in
    (length r.0 ≤ 500) × (length r.0 ≤ 5000) × Above 3 r.0 × (3 ≤ r.1) × Within r.1 r.0
unfolding parse_limit
since_bounds_example =
    since_bounds api_query.like small_table (api_label ∷ []) 3 none any_stream (codes "o") ascending

follow_all_lem_example :
    let w = follow_all api_query run_events opened in
    let t =
      tail_steps api_query run_events (tail_of api_query [] [] (rows_of api_query small_table)) in
    (w.1.lines ≡ last_n log_cap t.shown)
    × (views_of api_query (rows_of api_query w.0) ≡ (t.skipped ++ t.shown) ++ t.pending)
follow_all_lem_example =
    follow_all_lem api_query small_table idle_stream run_events (omega arith) ascending

few_pending :
    length
      (tail_steps api_query run_events
        (tail_of api_query [] [] (rows_of api_query small_table))).pending
    ≤ 2 * api_query.limit
unfolding tail_steps tail_step tail_poll has text_eq
few_pending = omega arith

follow_all-polls_example :
    let w = follow_all api_query (run_events ++ polls 2) opened in
    let t =
      tail_steps api_query
        (run_events ++ polls 2)
        (tail_of api_query [] [] (rows_of api_query small_table)) in
    (views_of api_query (rows_of api_query w.0) ≡ t.skipped ++ t.shown)
    × (w.1.lines ≡ last_n log_cap t.shown)
    × (let before =
          tail_steps api_query run_events
            (tail_of api_query [] [] (rows_of api_query small_table)) in
        t.skipped ≡ cut api_query.limit (before.skipped ++ before.shown) before)
follow_all-polls_example =
    follow_all-polls api_query small_table idle_stream run_events 2 (omega arith) ascending
      few_pending

-- Two polls that ask from the same cursor, and both replies: the line is shown twice.
abbrev overlapping : List WireEvent
overlapping = asked ∷ asked ∷ arrived 0 ∷ arrived 0 ∷ []

abbrev wire_after : Wire
wire_after = wire_steps api_query overlapping (wire_opened small_table idle_stream)

shown_twice : length wire_after.hook.lines ≡ 2
unfolding wire_steps wire_step wire_opened on_reply next_after logs_view since extended
    append_capped max_row has text_eq start_run on_params
shown_twice = refl

wire_steps_lem_example :
    All
      (λ line. Among line (views_of api_query (rows_of api_query wire_after.table)))
      wire_after.hook.lines
    × (length wire_after.hook.lines ≤ log_cap)
    × (next_after wire_after.hook ≤ max_row 0 wire_after.table)
wire_steps_lem_example = wire_steps_lem api_query small_table idle_stream overlapping
