-- ===== src/LogStream/Tests.antt =====
-- Two polls with one line each, and one that fails.
use marshal_pm.Base.{
  ◌≡◌, ◌≤◌, refl, arith, true, false, List, [], ◌∷◌, ◌++◌, codes, length, Outcome, returned, threw,
}
use marshal_pm.Api.Types.{LogsResponse}
use marshal_pm.LogStream.{Stream, log_cap, on_enabled, next_after, on_reply, on_replies}
use marshal_pm.LogStream.Buffer.{last_n, received, last_cursor, on_replies_lem, on_reply-resume}
use marshal_pm.Samples.{line}

abbrev stream : Stream
stream = record { lines = line (codes "one") ∷ []; cursor = 7; first = false; stop = false }

abbrev reply : LogsResponse
reply = record { cursor = 8; lines = line (codes "two") ∷ [] }

abbrev polls : List (Outcome LogsResponse)
polls = returned reply ∷ threw (codes "Failed to fetch") ∷ returned reply ∷ []

on_replies_lem_example :
    ((on_replies polls stream).lines ≡ last_n log_cap (stream.lines ++ received polls))
    × (length (on_replies polls stream).lines ≤ log_cap)
    × ((on_replies polls stream).cursor ≡ last_cursor 7 polls)
on_replies_lem_example = on_replies_lem polls stream refl (omega arith)

on_reply-resume_example :
    (next_after (on_enabled true (on_enabled false stream)) ≡ 0)
    × ((on_reply (returned reply) (on_enabled true (on_enabled false stream))).lines
        ≡ last_n log_cap (stream.lines ++ reply.lines))
on_reply-resume_example = on_reply-resume stream reply (omega arith)
