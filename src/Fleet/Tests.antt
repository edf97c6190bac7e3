-- ===== src/Fleet/Tests.antt =====
-- A fleet of two agents that are connected, one with an errored process, and one that is not.
use marshal_pm.Base.{◌≡◌, some, codes, text_eq}
use marshal_pm.Status.{status_of}
use marshal_pm.Fleet.{fleet_summary}
use marshal_pm.Fleet.Laws.{fleet_summary_counts}
use marshal_pm.Samples.{whole_numbers, fleet}

fleet_summary_counts_example :
    ((fleet_summary whole_numbers fleet).errored ≡ 1)
    × ((fleet_summary whole_numbers fleet).online ≡ 1)
    × ((fleet_summary whole_numbers fleet).running ≡ 2)
    × ((fleet_summary whole_numbers fleet).total_procs ≡ 3)
    × ((fleet_summary whole_numbers fleet).restarts24h ≡ 6)
    × ((fleet_summary whole_numbers fleet).mem_used ≡ some 9000)
    × ((fleet_summary whole_numbers fleet).mem_total ≡ some 24000)
    × ((fleet_summary whole_numbers fleet).errored_name ≡ some (codes "job"))
unfolding status_of text_eq
fleet_summary_counts_example = fleet_summary_counts whole_numbers fleet
