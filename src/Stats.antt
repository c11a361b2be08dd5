-- ===== src/Stats.antt =====
-- stats.go: the refresh of the queue gauges, over metrics.go's accessors. A gauge vector is a function
-- from its labels to a value, and `none` is a series that is not published. A walk over a map goes in the
-- order of its list. An age is in nanoseconds, and a count is a number. Prometheus' check of labels is the
-- parameter `valid`.
pub mod Maps
pub mod Vectors
pub mod Wanted
pub mod Published
mod Tests
use drover.Prelude.{
  ℕ, ◌+◌, String, Bool, true, false, not, ◌&&◌, List, [], ◌∷◌, ◌++◌, map, Option, none, some, ltb,
  str_eq, if◌then◌else◌, Result, ok, err,
}
use drover.Driver.{Time, Error}
use drover.Queues.{WeightedQueue}
use drover.Stats.Maps.{assign, assign_all, has_key, keys_of}
use drover.Stats.Vectors.{Gauges, set_all, set_states, delete_gone, delete_states, publish}

-- driver.QueueDepth, driver.QueueAge and driver.Stats.
pub record QueueDepth : Type 0 where
  pub queue : String
  pub state : String
  pub count : ℕ

pub record QueueAge : Type 0 where
  pub queue : String
  pub age : ℕ

pub record Reading : Type 0 where
  pub depths : List QueueDepth
  pub oldest : List QueueAge

abbrev pub DepthKey : Type 0
DepthKey = String × String

abbrev pub depth_key_eq : DepthKey → DepthKey → Bool
depth_key_eq a b = str_eq a.0 b.0 && str_eq a.1 b.1

abbrev pub published_depth_states : List String
published_depth_states = "available" ∷ "scheduled" ∷ "retryable" ∷ "running" ∷ "dead" ∷ []

pub record StatsRefresher : Type 0 where
  pub last_success : Option Time
  pub depth_keys : List DepthKey
  pub age_keys : List String
  pub depth : Gauges DepthKey
  pub oldest_age : Gauges String

-- The zeros of one configured queue.
abbrev pub queue_zeros : String → List String → List (DepthKey × ℕ)
queue_zeros queue [] = []
queue_zeros queue (state ∷ states) = ((queue, state), 0) ∷ queue_zeros queue states

unfoldable pub depth_zeros : List WeightedQueue → List (DepthKey × ℕ)
depth_zeros [] = []
depth_zeros (q ∷ queues) = queue_zeros q.name published_depth_states ++ depth_zeros queues

unfoldable pub age_zeros : List WeightedQueue → List (String × ℕ)
age_zeros [] = []
age_zeros (q ∷ queues) = (q.name, 0) ∷ age_zeros queues

abbrev pub depth_entry : QueueDepth → DepthKey × ℕ
depth_entry d = ((d.queue, d.state), d.count)

abbrev pub age_entry : QueueAge → String × ℕ
age_entry a = (a.queue, a.age)

-- `ages[d.Queue] = 0` where the queue has none.
unfoldable pub ages_of_depths : List QueueDepth → List (String × ℕ) → List (String × ℕ)
unfolding assign has_key
ages_of_depths [] ages = ages
ages_of_depths (d ∷ ds) ages =
    ages_of_depths ds (if has_key str_eq d.queue ages then ages else assign str_eq d.queue 0 ages)

unfoldable pub wanted_depths : List WeightedQueue → Reading → List (DepthKey × ℕ)
unfolding assign_all depth_zeros
wanted_depths queues r =
    assign_all depth_key_eq (map depth_entry r.depths)
      (assign_all depth_key_eq (depth_zeros queues) [])

unfoldable pub wanted_ages : List WeightedQueue → Reading → List (String × ℕ)
unfolding assign_all ages_of_depths age_zeros
wanted_ages queues r =
    assign_all str_eq (map age_entry r.oldest)
      (ages_of_depths r.depths (assign_all str_eq (age_zeros queues) []))

-- What `observe` sees: both vectors.
abbrev pub Seen : Type 0
Seen = Gauges DepthKey × Gauges String

module _ (valid : String → Bool) (queues : List WeightedQueue) where
  abbrev pub valid_depth : DepthKey → Bool
  valid_depth key = valid key.0

  -- newStatsRefresher over vectors that hold no series, with seedConfiguredZeros.
  unfoldable pub new_stats_refresher : StatsRefresher
  unfolding set_all assign_all depth_zeros age_zeros keys_of
  new_stats_refresher = record {
    last_success = none;
    depth_keys = keys_of (assign_all depth_key_eq (depth_zeros queues) []);
    age_keys = keys_of (assign_all str_eq (age_zeros queues) []);
    depth = set_all depth_key_eq valid_depth (depth_zeros queues) (λ key. none);
    oldest_age = set_all str_eq valid (age_zeros queues) (λ queue. none);
  }

  unfoldable pub refresh : Time → Result Error Reading → StatsRefresher → StatsRefresher
  unfolding publish wanted_depths wanted_ages keys_of
  refresh now (err e) r = r
  refresh now (ok reading) r = record {
    last_success = some now;
    depth_keys = keys_of (wanted_depths queues reading);
    age_keys = keys_of (wanted_ages queues reading);
    depth = publish depth_key_eq valid_depth (wanted_depths queues reading) r.depth_keys r.depth;
    oldest_age = publish str_eq valid (wanted_ages queues reading) r.age_keys r.oldest_age;
  }

  -- The states of the vectors during a refresh: the values are set, depths first, and then the series
  -- that vanished are deleted.
  unfoldable pub refresh_states : Reading → StatsRefresher → List Seen
  unfolding set_all set_states delete_gone delete_states wanted_depths wanted_ages
  refresh_states reading r =
      let depths = wanted_depths queues reading in
      let ages = wanted_ages queues reading in
      let depth = set_all depth_key_eq valid_depth depths r.depth in
      let age = set_all str_eq valid ages r.oldest_age in
      let last_depth = delete_gone depth_key_eq depths r.depth_keys depth in
      (r.depth, r.oldest_age)
      ∷ (map (λ d. (d, r.oldest_age)) (set_states depth_key_eq valid_depth depths r.depth)
          ++ (map (λ a. (depth, a)) (set_states str_eq valid ages r.oldest_age)
              ++ (map (λ d. (d, age)) (delete_states depth_key_eq depths r.depth_keys depth)
                  ++ map (λ a. (last_depth, a)) (delete_states str_eq ages r.age_keys age))))

-- Whether the last refresh that succeeded is at most `bound` before now.
unfoldable pub fresh : Time → ℕ → StatsRefresher → Bool
fresh now bound r = elim r.last_success [ none ↦ false | some at ↦ not (ltb (at + bound) now) ]
