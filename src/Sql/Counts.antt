-- ===== src/Sql/Counts.antt =====
-- QueueDepths and OldestClaimable: the groups of GROUP BY as the entries of a map, in an order that the
-- database chooses, `grouping`. The age of a group is measured from its least due time.
use drover.Prelude.{ℕ, String, not, ◌&&◌, List, [], ◌∷◌, map, ltb, str_eq, if◌then◌else◌}
use drover.Driver.{Time, state_text}
use drover.MemDriver.Claim.{waiting}
use drover.MemDriver.Stats.{counted, bump, earlier, queue_depth, queue_age}
use drover.Stats.{QueueDepth, QueueAge, DepthKey}
use drover.Stats.Maps.{lookup, assign}
use drover.Sql.{DbJob, Table}

unfoldable pub count_jobs : List DbJob → List (DepthKey × ℕ) → List (DepthKey × ℕ)
unfolding assign lookup
count_jobs [] groups = groups
count_jobs (job ∷ jobs) groups =
    count_jobs jobs
      (if counted job.state then bump (job.queue, state_text job.state) groups else groups)

unfoldable pub oldest_jobs : Time → List DbJob → List (String × ℕ) → List (String × ℕ)
unfolding assign lookup
oldest_jobs now [] groups = groups
oldest_jobs now (job ∷ jobs) groups = oldest_jobs now jobs (
    if waiting job.state && not (ltb now job.scheduled_at)
    then assign str_eq job.queue (earlier job.scheduled_at (lookup str_eq job.queue groups)) groups
    else groups)

unfoldable pub queue_depths : (List QueueDepth → List QueueDepth) → Table → List QueueDepth
unfolding count_jobs
queue_depths grouping t = grouping (map queue_depth (count_jobs t.rows []))

unfoldable pub oldest_claimable : (List QueueAge → List QueueAge) → Time → Table → List QueueAge
unfolding oldest_jobs
oldest_claimable grouping now t = grouping (map (queue_age now) (oldest_jobs now t.rows []))
