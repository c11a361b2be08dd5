-- ===== src/MemDriver/Stats.antt =====
-- Stats of internal/memdriver/memdriver.go. A walk over the jobs goes in the order of the rows.
use drover.Prelude.{
  ℕ, ◌+◌, ◌-◌, String, Bool, true, false, not, ◌&&◌, List, [], ◌∷◌, map, Option, none, some, ltb,
  str_eq, if◌then◌else◌, sort_by,
}
use Prim.Native.Nat.{Ordering}
use Prim.Native.String.{compare}
use drover.Driver.{
  Time, JobState, available, scheduled, running, retryable, dead, state_text, JobRow,
}
use drover.MemDriver.Rows.{Store}
use drover.MemDriver.Claim.{waiting}
use drover.Stats.{QueueDepth, QueueAge, Reading, DepthKey, depth_key_eq}
use drover.Stats.Maps.{lookup, assign}

abbrev pub counted : JobState → Bool
counted available = true
counted scheduled = true
counted retryable = true
counted running = true
counted dead = true
counted _ = false

abbrev pub or_no : Option ℕ → ℕ
or_no none = 0
or_no (some n) = n

-- `counts[depth{queue, state}]++`.
abbrev pub bump : DepthKey → List (DepthKey × ℕ) → List (DepthKey × ℕ)
bump key counts = assign depth_key_eq key (or_no (lookup depth_key_eq key counts) + 1) counts

abbrev pub depth_key : JobRow → DepthKey
depth_key row = (row.queue, state_text row.state)

-- The first part of the loop.
unfoldable pub count_rows : List JobRow → List (DepthKey × ℕ) → List (DepthKey × ℕ)
unfolding assign lookup
count_rows [] counts = counts
count_rows (row ∷ rows) counts =
    count_rows rows (if counted row.state then bump (depth_key row) counts else counts)

abbrev pub due : Time → JobRow → Bool
due now row = waiting row.state && not (ltb now row.scheduled_at)

-- `oldest[row.Queue]` after one row.
abbrev pub earlier : Time → Option Time → Time
earlier at none = at
earlier at (some since) = if ltb at since then at else since

-- The second part of the loop: a later due time writes what is there again.
unfoldable pub oldest_rows : Time → List JobRow → List (String × ℕ) → List (String × ℕ)
unfolding assign lookup
oldest_rows now [] oldest = oldest
oldest_rows now (row ∷ rows) oldest = oldest_rows now rows (
    if due now row
    then assign str_eq row.queue (earlier row.scheduled_at (lookup str_eq row.queue oldest)) oldest
    else oldest)

abbrev pub text_order : String → String → Bool
text_order a b = elim (compare a b) [ Ordering.gt ↦ false | _ ↦ true ]

abbrev pub depth_order : QueueDepth → QueueDepth → Bool
depth_order a b =
    if str_eq a.queue b.queue then text_order a.state b.state else text_order a.queue b.queue

abbrev pub age_order : QueueAge → QueueAge → Bool
age_order a b = text_order a.queue b.queue

abbrev pub queue_depth : DepthKey × ℕ → QueueDepth
queue_depth ((queue, state), n) = record { queue = queue; state = state; count = n }

abbrev pub queue_age : Time → String × ℕ → QueueAge
queue_age now (queue, since) = record { queue = queue; age = now - since }

unfoldable pub stats : Time → Store → Reading
unfolding count_rows oldest_rows
stats now s = record {
  depths = sort_by depth_order (map queue_depth (count_rows s.jobs []));
  oldest = sort_by age_order (map (queue_age now) (oldest_rows now s.jobs []));
}
