-- ===== src/LogStore/Overlap.antt =====
-- Polls of web/src/hooks/useLogStream.ts that overlap: the hook sends one every 1.5 s, whether or not
-- the one before was answered. A reply is made when the server handles the request, and arrives
-- later, in any order or never.
pub mod Genuine
use marshal_pm.Base.{
  ℕ, zero, suc, ◌+◌, ◌-◌, ◌≡◌, ◌≤◌, ◌⊎◌, inl, inr, refl, ap, sym, ◌∙◌, arith, Bool, true, false,
  Bool-cases, Option, none, some, List, [], ◌∷◌, ◌++◌, All, All-append, length, take, drop, select,
  map, get_elem?, ltb, ◌==◌, if◌then◌else◌, Outcome, returned, threw,
}
use marshal_pm.Api.Types.{LogLine, LogsResponse}
use marshal_pm.LogStream.{Stream, log_cap, next_after, on_reply, start_run, on_params}
use marshal_pm.LogStore.{StoredLine, max_row, append_lines, since, logs_view}
use marshal_pm.LogStore.Follow.{Query, rows_of, views_of}

-- The table, the hook, and the replies that are under way.
pub record Wire : Type 0 where
  pub table : List StoredLine
  pub hook : Stream
  pub under_way : List LogsResponse

pub data WireEvent : Type 0 where
  inserted : List StoredLine → WireEvent
  asked : WireEvent
  arrived dropped : ℕ → WireEvent

without {ℓ} : {A : Type ℓ} → ℕ → List A → List A
without n [] = []
without zero (x ∷ xs) = xs
without (suc n) (x ∷ xs) = x ∷ without n xs

abbrev deliver : Option LogsResponse → Stream → Stream
deliver none s = s
deliver (some r) s = on_reply (returned r) s

unfoldable pub wire_step : Query → WireEvent → Wire → Wire
unfolding without on_reply append_lines since logs_view next_after
wire_step q (inserted lines) w = record w { table = append_lines w.table lines }
wire_step q asked w = record w {
  under_way =
      w.under_way
      ++ (logs_view q.atoi
            (since q.like w.table (q.label ∷ q.labels) (next_after w.hook) q.limit q.filter q.text)
          ∷ []);
}
wire_step q (arrived n) w = record w {
  hook = deliver (get_elem? w.under_way n) w.hook;
  under_way = without n w.under_way;
}
wire_step q (dropped n) w = record w { under_way = without n w.under_way }

unfoldable pub wire_steps : Query → List WireEvent → Wire → Wire
unfolding wire_step
wire_steps q [] w = w
wire_steps q (e ∷ es) w = wire_steps q es (wire_step q e w)

-- A page that has just been opened, over a table.
unfoldable pub wire_opened : List StoredLine → Stream → Wire
unfolding start_run on_params
wire_opened table s = record { table = table; hook = start_run true (on_params s); under_way = [] }
