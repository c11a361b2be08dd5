-- ===== src/Client/Bounds.antt =====
-- What newClient's settings guarantee to the loops that run by them.
use drover.Prelude.{ℕ, ◌≡◌, ◌≤◌, ◌<◌, arith, ℤ, pos}
use drover.Client.{
  Config, Settings, min_lease_duration, settle_lease, settle_heartbeat, settle_stats, settings,
}

settle_lease_bounds : (d : ℤ) → min_lease_duration ≤ settle_lease d
unfolding settle_lease
settle_lease_bounds d = ground arith

settle_heartbeat_bounds :
    (lease : ℕ) (d : ℤ)
    → min_lease_duration ≤ lease
    → (0 < settle_heartbeat lease d) × (settle_heartbeat lease d < lease)
unfolding settle_heartbeat
settle_heartbeat_bounds lease d h = ground arith

settle_stats_bounds : (d : ℤ) → 0 < settle_stats d
unfolding settle_stats
settle_stats_bounds d = ground arith

-- Whatever is configured, no loop runs at an interval of zero, the lease lasts at least a millisecond,
-- the heartbeat comes strictly before the lease it renews runs out, and there is a worker.
pub settings_bounds :
    (cfg : Config)
    → let s = settings cfg in
      (min_lease_duration ≤ s.lease)
      × (0 < s.heartbeat)
      × (s.heartbeat < s.lease)
      × (0 < s.rescue)
      × (0 < s.poll)
      × (0 < s.stats)
      × (0 < s.workers)
unfolding settings
settings_bounds cfg =
    let l = settle_lease_bounds cfg.lease_duration in
    let h = settle_heartbeat_bounds (settle_lease cfg.lease_duration) cfg.heartbeat_interval l in
    (l, h.0, h.1, ground arith, ground arith, settle_stats_bounds cfg.stats_interval, ground arith)

settle_stats_kept : (n : ℕ) → 0 < n → settle_stats (pos n) ≡ n
unfolding settle_stats
settle_stats_kept n h = ground arith

-- A configuration whose values are all in range is used as it is.
pub settings_kept :
    (cfg : Config) (s : Settings)
    → min_lease_duration ≤ s.lease
    → 0 < s.heartbeat
    → s.heartbeat < s.lease
    → 0 < s.rescue
    → 0 < s.poll
    → 0 < s.stats
    → 0 < s.workers
    → settings (record {
      poll_interval = pos s.poll;
      lease_duration = pos s.lease;
      heartbeat_interval = pos s.heartbeat;
      rescue_interval = pos s.rescue;
      stats_interval = pos s.stats;
      concurrency = pos s.workers;
      queues = cfg.queues;
    })
      ≡ s
unfolding settings settle_lease settle_heartbeat
settings_kept cfg s a b c d e f g = ground (arith, settle_stats_kept s.stats f)
