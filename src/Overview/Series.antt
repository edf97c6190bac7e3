-- ===== src/Overview/Series.antt =====
-- The series of a process are those that the reply gave last.
use marshal_pm.Base.{
  ◌≡◌, refl, ap, ◌∙◌, Bool, true, false, Option, none, some, List, [], ◌∷◌, Text, text_eq, assign,
  lookup, lookup-assign, returned, if◌then◌else◌,
}
use marshal_pm.Api.Types.{ProcMetrics, AgentMetrics}
use marshal_pm.Overview.{
  cpu_of, trend_in, Trend, Series, trend_of, proc_series, agent_series, metrics_done, cpu_series,
}

module _ {N : Type 0} where
  -- The last process with a name, and the last agent with one.
  abbrev pub last_proc : Text → Option (Trend N) → List (ProcMetrics N) → Option (Trend N)
  last_proc k found [] = found
  last_proc k found (p ∷ ps) =
      last_proc k (if text_eq p.name k then some (trend_of p) else found) ps

  abbrev pub last_agent :
      Text → Option (List (ProcMetrics N)) → List (AgentMetrics N) → Option (List (ProcMetrics N))
  last_agent k found [] = found
  last_agent k found (a ∷ rest) =
      last_agent k (if text_eq a.agent k then some a.procs else found) rest

  lookup-proc_series :
      (k : Text) (ps : List (ProcMetrics N)) (m : List (Text × Trend N))
      → lookup k (proc_series ps m) ≡ last_proc k (lookup k m) ps
  unfolding proc_series
  lookup-proc_series k [] m = refl
  lookup-proc_series k (p ∷ ps) m =
      lookup-proc_series k ps (assign p.name (trend_of p) m)
      ∙ ap (λ o. last_proc k o ps) (lookup-assign p.name k (trend_of p) m)

  -- The processes of an agent, as the object of their series.
  abbrev object_of : Option (List (ProcMetrics N)) → Option (List (Text × Trend N))
  object_of none = none
  object_of (some ps) = some (proc_series ps [])

  object_of-if :
      (b : Bool) (ps : List (ProcMetrics N)) (o : Option (List (ProcMetrics N)))
      → (if b then some (proc_series ps []) else object_of o) ≡ object_of (if b then some ps else o)
  object_of-if true ps o = refl
  object_of-if false ps o = refl

  lookup-agent_series :
      (k : Text) (agents : List (AgentMetrics N)) (m : Series N)
      (found : Option (List (ProcMetrics N)))
      → lookup k m ≡ object_of found
      → lookup k (agent_series agents m) ≡ object_of (last_agent k found agents)
  unfolding agent_series
  lookup-agent_series k [] m found h = h
  lookup-agent_series k (a ∷ rest) m found h =
      lookup-agent_series k rest (assign a.agent (proc_series a.procs []) m) _ (
        lookup-assign a.agent k (proc_series a.procs []) m
        ∙ ap (λ o. if text_eq a.agent k then some (proc_series a.procs []) else o) h
        ∙ object_of-if (text_eq a.agent k) a.procs found)

  -- The CPU of the last process with the name, of an agent's processes.
  abbrev pub cpu_in : Text → Option (List (ProcMetrics N)) → List N
  cpu_in proc none = []
  cpu_in proc (some ps) = cpu_of (last_proc proc none ps)

  cpu_of-trend_in :
      (proc : Text) (o : Option (List (ProcMetrics N)))
      → cpu_of (trend_in proc (object_of o)) ≡ cpu_in proc o
  unfolding lookup
  cpu_of-trend_in proc none = refl
  cpu_of-trend_in proc (some ps) = ap cpu_of (lookup-proc_series proc ps [])

  -- After a reply to the poll, the trend of a process is drawn from the averages of the buckets of
  -- the last process with its name, of the last agent with that agent's name, in the reply, and is
  -- empty if there is none; the series from before leave no trace.
  pub cpu_series-metrics_done :
      (agent proc : Text) (reply : List (AgentMetrics N)) (before : Series N)
      → cpu_series agent proc (metrics_done false (returned reply) before)
        ≡ cpu_in proc (last_agent agent none reply)
  unfolding cpu_series metrics_done
  cpu_series-metrics_done agent proc reply before =
      ap (λ o. cpu_of (trend_in proc o)) (lookup-agent_series agent reply [] none refl)
      ∙ cpu_of-trend_in proc (last_agent agent none reply)
