-- ===== src/Stats/Tests.antt =====
-- Refreshes of small readings, and the theorems at concrete inputs.
use drover.Prelude.{String, Bool, false, not, List, [], ◌∷◌, none, some, str_eq, ok, err, ◌≡◌, refl}
use drover.Driver.{statement_failed}
use drover.Queues.{WeightedQueue}
use drover.Stats.{Reading, StatsRefresher, new_stats_refresher, refresh, fresh}
use drover.Stats.Published.{Keeps, Shows, refresh-Shows, new_stats_refresher-Keeps}

-- Prometheus refuses the label "bad".
abbrev accepts : String → Bool
accepts label = not (str_eq label "bad")

abbrev queues : List WeightedQueue
queues = record { name = "mail"; weight = 1 } ∷ record { name = "bad"; weight = 1 } ∷ []

abbrev reading : Reading
reading = record {
  depths =
      record { queue = "mail"; state = "dead"; count = 3 }
      ∷ record { queue = "old"; state = "available"; count = 1 }
      ∷ [];
  oldest = record { queue = "old"; age = 7 } ∷ [];
}

abbrev seeded : StatsRefresher
seeded = new_stats_refresher accepts queues

published : (refresh accepts queues 9 (ok reading) seeded).depth ("mail", "dead") ≡ some 3
unfolding refresh new_stats_refresher
published = refl

skipped : (refresh accepts queues 9 (ok reading) seeded).depth ("bad", "dead") ≡ none
unfolding refresh new_stats_refresher
skipped = refl

stale : fresh 30 20 (refresh accepts queues 9 (ok reading) seeded) ≡ false
unfolding refresh fresh
stale = refl

refresh-Shows_example :
    let after = refresh accepts queues 9 (ok reading) seeded in
    Shows accepts queues reading after
    × Keeps accepts after
    × (after.last_success ≡ some 9)
    × (refresh accepts queues 9 (err (statement_failed 1)) seeded ≡ seeded)
refresh-Shows_example =
    refresh-Shows accepts queues 9 reading (statement_failed 1) seeded
      (new_stats_refresher-Keeps accepts queues)
