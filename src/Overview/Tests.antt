-- ===== src/Overview/Tests.antt =====
-- A fleet, and a reply to the poll of its metrics.
use marshal_pm.Base.{
  ◌≡◌, refl, ℕ, false, none, List, [], ◌∷◌, codes, length, map, returned, text_eq, lookup, assign,
}
use marshal_pm.Api.Types.{Bucket, ProcMetrics, AgentMetrics}
use marshal_pm.Fleet.{fleet_summary}
use marshal_pm.Fleet.Laws.{count, total}
use marshal_pm.Overview.{metrics_done, cpu_series, agent_series, proc_series}
use marshal_pm.Overview.Rows.{sections_from}
use marshal_pm.Overview.Series.{last_agent, cpu_in, cpu_series-metrics_done}
use marshal_pm.Overview.Agreement.{shows_error, sections_from-fleet_summary}
use marshal_pm.Samples.{whole_numbers, fleet}

abbrev bucket : ℕ → Bucket ℕ
bucket cpu = record { ts = 1; cpu_avg = cpu; cpu_max = cpu; mem_avg = 2; mem_max = 2 }

abbrev web_metrics : List ℕ → ProcMetrics ℕ
web_metrics cpus = record { name = codes "web"; buckets = map bucket cpus }

abbrev reply : List (AgentMetrics ℕ)
reply =
    (record { agent = codes "a1"; procs = web_metrics (1 ∷ []) ∷ web_metrics (4 ∷ 5 ∷ []) ∷ [] })
    ∷ (record { agent = codes "a2"; procs = [] })
    ∷ []

drawn : cpu_series (codes "a1") (codes "web") (metrics_done false (returned reply) []) ≡ 4 ∷ 5 ∷ []
unfolding cpu_series metrics_done agent_series proc_series lookup assign text_eq
drawn = refl

cpu_series-metrics_done_example :
    cpu_series (codes "a1") (codes "web") (metrics_done false (returned reply) [])
    ≡ cpu_in (codes "web") (last_agent (codes "a1") none reply)
cpu_series-metrics_done_example = cpu_series-metrics_done (codes "a1") (codes "web") reply []

sections_from-fleet_summary_example :
    (length (sections_from whole_numbers 2000000 [] 0 fleet)
      ≡ (fleet_summary whole_numbers fleet).agents)
    × (total (λ s. length s.rows) (sections_from whole_numbers 2000000 [] 0 fleet)
        ≡ (fleet_summary whole_numbers fleet).total_procs)
    × (count shows_error (sections_from whole_numbers 2000000 [] 0 fleet)
        ≡ (fleet_summary whole_numbers fleet).errored)
sections_from-fleet_summary_example = sections_from-fleet_summary whole_numbers 2000000 [] fleet
