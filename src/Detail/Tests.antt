-- ===== src/Detail/Tests.antt =====
-- Two replies, and the errors of one instance of a process.
use marshal_pm.Detail.Cells.{subview, files, recent_lines}
use marshal_pm.Base.{Text}
use marshal_pm.Base.{
  ℕ, refl, none, ◌≡◌, true, false, List, [], ◌∷◌, codes, Outcome, returned, threw,
}
use marshal_pm.Api.Types.{LogsResponse}
use marshal_pm.LogStream.{on_replies}
use marshal_pm.LogStream.Buffer.{last_n, received}
use marshal_pm.Detail.{opened, show_files, Tail, log_cap, start_tail, tail_replies}
use marshal_pm.Detail.Polls.{stream_of, tail_replies_lem}
use marshal_pm.Samples.{line}

abbrev before : Tail
before = record { lines = line (codes "old") ∷ []; cursor = 7; first = false; stop = true }

abbrev no_clock : ℕ → Text
no_clock ts = []

abbrev polls : List (Outcome LogsResponse)
polls =
    returned (record { cursor = 8; lines = line (codes "one") ∷ [] })
    ∷ threw (codes "Failed to fetch")
    ∷ returned (record { cursor = 0; lines = [] })
    ∷ []

tail_replies_lem_example :
    ((tail_replies polls (start_tail before)).lines
      ≡ (on_replies polls (stream_of (start_tail before))).lines)
    × ((tail_replies polls (start_tail before)).lines ≡ last_n log_cap (received polls))
    × (recent_lines no_clock (tail_replies polls (start_tail before))
        ≡ ([], codes "tx", codes "one") ∷ [])
tail_replies_lem_example = tail_replies_lem no_clock polls before

-- The files of a process that has left the fleet are chosen: nothing is shown below the tabs.
no_subview : subview files (opened {N = ℕ}) ≡ none
unfolding subview show_files opened
no_subview = refl
