-- ===== src/Errors.antt =====
-- web/src/Errors.tsx: the grouped errors of a time range, and their acknowledgement.
pub mod Latest
pub mod View
pub mod Tests
use marshal_pm.Base.{
  ℕ, ◌+◌, Bool, true, false, not, ◌||◌, Option, none, some, List, [], ◌∷◌, ◌++◌, Text, codes, map,
  length, select, ltb, ◌==◌, if◌then◌else◌, Outcome, returned, threw,
}
use marshal_pm.Api.Types.{ErrSignature, ErrorsResponse}
use marshal_pm.Api.Http.{Fetch}
use marshal_pm.Api.Errors.{get_errors, ack_error}

pub data Range : Type 0 where
  hours24 days7 all_time : Range

unfoldable pub range_value : Range → Text
range_value hours24 = codes "24h"
range_value days7 = codes "7d"
range_value all_time = codes "all"

unfoldable pub range_label : Range → Text
range_label hours24 = codes "in 24h"
range_label days7 = codes "in 7d"
range_label all_time = codes "all time"

pub record Errors : Type 0 where
  pub range : Range
  pub response : Option ErrorsResponse
  pub err : Option Text
  pub tick : ℕ
  pub acking : Bool

unfoldable pub opened : Errors
opened = record { range = hours24; response = none; err = none; tick = 0; acking = false }

-- The effect on the range and the tick: what it does at once, and with the reply, unless it was
-- cleaned up before.
unfoldable pub load_begin : Errors → Errors
load_begin s = record s { err = none }

-- `String(e)`, for an error with this message, is the parameter `to_string`.
unfoldable pub load_done :
    (to_string : Text → Text) → Bool → Outcome ErrorsResponse → Errors → Errors
load_done to_string false m s = s
load_done to_string true (returned d) s = record s { response = some d }
load_done to_string true (threw e) s = record s { err = some (to_string e) }

unfoldable pub set_range : Range → Errors → Errors
set_range range s = record s { range = range }

abbrev signatures_of : Option ErrorsResponse → List ErrSignature
signatures_of none = []
signatures_of (some d) = d.signatures

unfoldable pub unacked : Errors → List ErrSignature
unacked s = select (λ sig. not sig.acknowledged) (signatures_of s.response)

-- The `reduce` that finds the signature with the latest error.
abbrev later : Option ErrSignature → ErrSignature → Option ErrSignature
later none s = some s
later (some best) s = if ltb best.last_unix s.last_unix then some s else some best

unfoldable pub latest_from : Option ErrSignature → List ErrSignature → Option ErrSignature
latest_from best [] = best
latest_from best (s ∷ rest) = latest_from (later best s) rest

unfoldable pub most_recent : Errors → Option ErrSignature
unfolding latest_from
most_recent s = latest_from none (signatures_of s.response)

abbrev place_of : Option ErrSignature → Text
place_of none = codes "ago"
place_of (some s) = codes "ago · " ++ (s.agent ++ (codes " / " ++ s.proc))

unfoldable pub last_sub : Errors → Text
unfolding most_recent
last_sub s = place_of (most_recent s)

-- A row's acknowledgement: the page is loaded anew if the server took it.
unfoldable pub ack_done : Outcome (Unit {0}) → Errors → Errors
ack_done (returned u) s = record s { tick = s.tick + 1 }
ack_done (threw e) s = s

abbrev all_disabled : Errors → Bool
all_disabled s = s.acking || length (unacked s) == 0

unfoldable pub begin_ack_all : Errors → Errors
begin_ack_all s = record s { acking = true }

-- `finally`: whatever the calls came to.
unfoldable pub end_ack_all : Errors → Errors
end_ack_all s = record s { acking = false; tick = s.tick + 1 }

module _ {N : Type 0} (fetch : Fetch N (Unit {0})) where
  unfoldable pub on_ack : ErrSignature → Errors → Errors
  on_ack sig s = ack_done (ack_error fetch sig.id (not sig.acknowledged)) s

  -- The calls that are sent together, one for each signature that is not acknowledged.
  unfoldable pub ack_calls : List ErrSignature → List (Outcome (Unit {0}))
  ack_calls sigs = map (λ sig. ack_error fetch sig.id true) sigs

  unfoldable pub on_ack_all : Errors → Errors × List (Outcome (Unit {0}))
  unfolding unacked begin_ack_all end_ack_all ack_calls
  on_ack_all s =
      if all_disabled s then (s, []) else (end_ack_all (begin_ack_all s), ack_calls (unacked s))
