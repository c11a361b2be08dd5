-- ===== src/Stats/Published.antt =====
-- What a refresh of stats.go publishes, and what a scrape sees while it runs.
use drover.Prelude.{
  ℕ, String, Bool, true, false, List, [], ◌∷◌, map, Option, none, some, str_eq, if◌then◌else◌, ok,
  err, ◌≡◌, refl, ap, sym, ◌∙◌, arith, Bool-cases, inl, inr, All, All-append, All-map, Option-cases,
}
use drover.Driver.{Time, Error}
use drover.Queues.{WeightedQueue}
use drover.Stats.Maps.{
  holds, assign_all, Decides, lookup-assign_all, holds-keys_of, lookup, has_key, keys_of,
  lookup-has_key,
}
use drover.Stats.Vectors.{
  is_some, set_all, Tracked, publish_lem, publish-Tracked, set_all-last_given, delete_gone-present,
  set_states-present, delete_states-present,
}
use drover.Stats.Wanted.{
  str_eq-Decides, depth_key_eq-Decides, depth_wanted, age_wanted, lookup-wanted_depths,
  lookup-wanted_ages, wanted-IsMap,
}
use drover.Stats.{
  Reading, DepthKey, depth_key_eq, StatsRefresher, wanted_depths, wanted_ages, Seen, valid_depth,
  refresh, refresh_states, new_stats_refresher, depth_zeros, age_zeros,
}

-- Every published series is among the keys that the refresher keeps.
pub record Keeps (valid : String → Bool) (r : StatsRefresher) : Type 0 where
  pub depths : Tracked depth_key_eq depth_key_eq-Decides (λ key. valid key.0) r.depth_keys r.depth
  pub ages : Tracked str_eq str_eq-Decides valid r.age_keys r.oldest_age

-- What the vectors show after a refresh of the reading.
abbrev pub Shows : (String → Bool) → List WeightedQueue → Reading → StatsRefresher → Type 0
Shows valid queues reading r =
    ((key : DepthKey)
      → r.depth key ≡ (if valid key.0 then depth_wanted queues reading key else none))
    × ((queue : String)
        → r.oldest_age queue ≡ (if valid queue then age_wanted queues reading queue else none))

-- A refresh that succeeds publishes exactly the wanted series, those of queue names that Prometheus
-- accepts: whatever was published before, each has the reading's value, or zero where a configured queue
-- has none, and every other series is gone. It notes the time, and the refresher goes on keeping the keys
-- of all that is published. A reading that fails changes nothing.
pub refresh-Shows :
    (valid : String → Bool) (queues : List WeightedQueue) (now : Time) (reading : Reading)
    (e : Error) (r : StatsRefresher)
    → Keeps valid r
    → let after = refresh valid queues now (ok reading) r in
      Shows valid queues reading after
      × Keeps valid after
      × (after.last_success ≡ some now)
      × (refresh valid queues now (err e) r ≡ r)
unfolding refresh
refresh-Shows valid queues now reading e r k = (
  (
    λ key.
        publish_lem depth_key_eq depth_key_eq-Decides (λ x. valid x.0) key
          (wanted_depths queues reading) r.depth_keys r.depth (wanted-IsMap queues reading).0
          k.depths
        ∙ ap (λ o. if valid key.0 then o else none) (lookup-wanted_depths queues reading key),
    λ queue.
        publish_lem str_eq str_eq-Decides valid queue (wanted_ages queues reading) r.age_keys
          r.oldest_age (wanted-IsMap queues reading).1 k.ages
        ∙ ap (λ o. if valid queue then o else none) (lookup-wanted_ages queues reading queue),
  ),
  record {
    depths =
        publish-Tracked depth_key_eq depth_key_eq-Decides (λ x. valid x.0)
          (wanted_depths queues reading) r.depth_keys r.depth (wanted-IsMap queues reading).0
          k.depths;
    ages =
        publish-Tracked str_eq str_eq-Decides valid (wanted_ages queues reading) r.age_keys
          r.oldest_age (wanted-IsMap queues reading).1 k.ages;
  },
  refl,
  refl,
)

no_key :
    {K : Type 0} (eq : K → K → Bool) (k : K) (m : List (K × ℕ))
    → holds eq k (keys_of m) ≡ false
    → lookup eq k m ≡ none
no_key eq k m h = elim (Option-cases (lookup eq k m)) [
  | inl e ↦ e
  | inr (n, e) ↦ absurd (ground (arith, holds-keys_of eq k m, lookup-has_key eq k m))
]

-- After a walk over entries onto an empty vector, the series are among the keys of the map built from
-- the same entries.
seeded-Tracked :
    {K : Type 0} (eq : K → K → Bool) (d : Decides eq) (valid : K → Bool) (entries : List (K × ℕ))
    → Tracked eq d valid (keys_of (assign_all eq entries [])) (set_all eq valid entries (λ k. none))
unfolding lookup
seeded-Tracked eq d valid entries = record {
  tracked = λ k out.
      set_all-last_given eq d valid k entries (λ k'. none)
      ∙ ap (λ o. if valid k then o else none)
          (sym (lookup-assign_all eq d k entries []) ∙ no_key eq k (assign_all eq entries []) out)
      ∙ elim (Bool-cases (valid k)) [ inl v ↦ rw v refl | inr v ↦ rw v refl ];
  accepted = λ k no_label. set_all-last_given eq d valid k entries (λ k'. none) ∙ rw no_label refl;
}

pub new_stats_refresher-Keeps :
    (valid : String → Bool) (queues : List WeightedQueue)
    → Keeps valid (new_stats_refresher valid queues)
unfolding new_stats_refresher
new_stats_refresher-Keeps valid queues = record {
  depths = seeded-Tracked depth_key_eq depth_key_eq-Decides (λ x. valid x.0) (depth_zeros queues);
  ages = seeded-Tracked str_eq str_eq-Decides valid (age_zeros queues);
}

-- Both series are published in the state.
abbrev pub BothSeen : DepthKey → String → Seen → Type 0
BothSeen key queue s = (is_some (s.0 key) ≡ true) × (is_some (s.1 queue) ≡ true)

All-map_seen :
    {A : Type 0} (P : Seen → Type 0) (f : A → Seen) (xs : List A)
    → All (λ x. P (f x)) xs
    → All P (map f xs)
All-map_seen P f [] h = tt
All-map_seen P f (x ∷ xs) h = (h.0, All-map_seen P f xs h.1)

wanted_key :
    {K : Type 0} (eq : K → K → Bool) (k : K) (m : List (K × ℕ)) (o : Option ℕ)
    → lookup eq k m ≡ o
    → is_some o ≡ true
    → has_key eq k m ≡ true
wanted_key eq k m none e h = absurd (ground arith)
wanted_key eq k m (some n) e h = lookup-has_key eq k m ∙ rw e refl

-- A depth series and an age series that are published, and that the reading or the configuration still
-- wants, are there in every state that a scrape can see during the refresh.
pub refresh_states-BothSeen :
    (valid : String → Bool) (queues : List WeightedQueue) (reading : Reading) (r : StatsRefresher)
    (key : DepthKey) (queue : String)
    → is_some (r.depth key) ≡ true
    → is_some (r.oldest_age queue) ≡ true
    → is_some (depth_wanted queues reading key) ≡ true
    → is_some (age_wanted queues reading queue) ≡ true
    → All (BothSeen key queue) (refresh_states valid queues reading r)
unfolding refresh_states
refresh_states-BothSeen valid queues reading r key queue d a wd wa =
    let depths = wanted_depths queues reading in
    let ages = wanted_ages queues reading in
    let depth = set_all depth_key_eq (valid_depth valid queues) depths r.depth in
    let age = set_all str_eq valid ages r.oldest_age in
    let depth_set =
      set_states-present depth_key_eq depth_key_eq-Decides (valid_depth valid queues) key depths
        r.depth d in
    let age_set = set_states-present str_eq str_eq-Decides valid queue ages r.oldest_age a in
    let has_depth_key =
      wanted_key depth_key_eq key depths _ (lookup-wanted_depths queues reading key) wd in
    let has_age_key = wanted_key str_eq queue ages _ (lookup-wanted_ages queues reading queue) wa in
    let depth_kept =
      delete_states-present depth_key_eq depth_key_eq-Decides (valid_depth valid queues) key depths
        r.depth_keys depth depth_set.1 has_depth_key in
    let age_kept =
      delete_states-present str_eq str_eq-Decides valid queue ages r.age_keys age age_set.1
        has_age_key in
    let depth_last =
      delete_gone-present depth_key_eq depth_key_eq-Decides (valid_depth valid queues) key depths
        r.depth_keys depth depth_set.1 has_depth_key in
    let P = BothSeen key queue in
    (
      (d, a),
      All-append P _ _
          (All-map_seen P (λ x. (x, r.oldest_age)) _
            (All-map (λ x. is_some (x key) ≡ true) (λ x h. (h, a)) _ depth_set.0))
          (All-append P _ _
            (All-map_seen P (λ x. (depth, x)) _
              (All-map (λ x. is_some (x queue) ≡ true) (λ x h. (depth_set.1, h)) _ age_set.0))
            (All-append P _ _
              (All-map_seen P (λ x. (x, age)) _
                (All-map (λ x. is_some (x key) ≡ true) (λ x h. (h, age_set.1)) _ depth_kept))
              (All-map_seen P (λ x. (_, x)) _
                (All-map (λ x. is_some (x queue) ≡ true) (λ x h. (depth_last, h)) _ age_kept)))),
    )
