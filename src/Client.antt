-- ===== src/Client.antt =====
-- client.go: the settings that newClient derives from a Config, and the calls that enqueue jobs.
-- A time.Duration of the Config is a signed number of nanoseconds. The logger, the registries and the
-- collectors, which only default to a fresh one, are left out.
pub mod Enqueue
pub mod Bounds
pub mod Batch
pub mod Lifecycle
mod Tests
use drover.Prelude.{
  ℕ, ◌/◌, ◌==◌, String, Bool, true, false, List, [], ◌∷◌, Option, none, some, if◌then◌else◌, Result,
  ok, err, ℤ, pos, negsuc, suc, pos_part, leb_ℤ, ltb_ℤ,
}
use drover.Queues.{WeightedQueue, checked_queues}

pub record Config : Type 0 where
  pub poll_interval : ℤ
  pub lease_duration : ℤ
  pub heartbeat_interval : ℤ
  pub rescue_interval : ℤ
  pub stats_interval : ℤ
  pub concurrency : ℤ
  pub queues : List (String × ℤ)

pub record Settings : Type 0 where
  pub poll : ℕ
  pub lease : ℕ
  pub heartbeat : ℕ
  pub rescue : ℕ
  pub stats : ℕ
  pub workers : ℕ

abbrev pub default_poll_interval : ℕ
default_poll_interval = 1_000_000_000

abbrev pub default_concurrency : ℕ
default_concurrency = 10

abbrev pub heartbeats_per_lease : ℕ
heartbeats_per_lease = 3

abbrev pub min_lease_duration : ℕ
min_lease_duration = 1_000_000

abbrev pub default_lease_duration : ℕ
default_lease_duration = 60_000_000_000

abbrev pub default_stats_interval : ℕ
default_stats_interval = 15_000_000_000

-- `if d <= 0 { d = default }`.
abbrev pub or_default : ℕ → ℤ → ℕ
or_default d v = if leb_ℤ v (pos 0) then d else pos_part v

unfoldable pub settle_lease : ℤ → ℕ
settle_lease d = if ltb_ℤ d (pos min_lease_duration) then default_lease_duration else pos_part d

-- The two tests on the heartbeat, at the lease that is already settled.
unfoldable pub settle_heartbeat : ℕ → ℤ → ℕ
settle_heartbeat lease d =
    let asked = if leb_ℤ (pos lease) d then pos 0 else d in
    or_default (lease / heartbeats_per_lease) asked

-- The switch on the stats interval.
unfoldable pub settle_stats : ℤ → ℕ
settle_stats d =
    if ltb_ℤ d (pos 0)
    then default_stats_interval
    else if pos_part d == 0
    then default_stats_interval
    else pos_part d

unfoldable pub settings : Config → Settings
unfolding settle_lease settle_heartbeat settle_stats
settings cfg = record {
  poll = or_default default_poll_interval cfg.poll_interval;
  lease = settle_lease cfg.lease_duration;
  heartbeat = settle_heartbeat (settle_lease cfg.lease_duration) cfg.heartbeat_interval;
  rescue = or_default (settle_lease cfg.lease_duration) cfg.rescue_interval;
  stats = settle_stats cfg.stats_interval;
  workers = or_default default_concurrency cfg.concurrency;
}

-- Construction panics on a queue without a name and on a nil middleware, at its index.
pub data Panic : Type 0 where
  bad_queues : Panic
  nil_middleware : ℕ → Panic

module _ {M : Type 0} where
  -- The loop of checkedMiddleware from index `i`.
  unfoldable pub check_middleware : ℕ → List (Option M) → Result Panic (List M)
  check_middleware i [] = ok []
  check_middleware i (none ∷ rest) = err (nil_middleware i)
  check_middleware i (some m ∷ rest) = elim (check_middleware (suc i) rest) [
    | ok ms ↦ ok (m ∷ ms)
    | err p ↦ err p
  ]
