-- ===== src/Stats/Wanted.antt =====
-- The maps that a refresh of stats.go builds before it publishes.
use drover.Prelude.{
  ℕ, String, Bool, true, false, ◌&&◌, ◌||◌, List, [], ◌∷◌, ◌++◌, map, Option, none, some, str_eq,
  eq_iff, if◌then◌else◌, ◌≡◌, refl, ap, sym, ◌∙◌, arith, Bool-cases, Option-cases, inl, inr,
}
use drover.Queues.{WeightedQueue}
use drover.Stats.Maps.{
  lookup, assign, assign_all, has_key, holds, Decides, IsMap, last_given, lookup-assign,
  lookup-assign_all, assign_all-IsMap, assign-IsMap, lookup-has_key,
}
use drover.Stats.{
  QueueDepth, Reading, DepthKey, depth_key_eq, published_depth_states, queue_zeros, depth_zeros,
  age_zeros, depth_entry, age_entry, ages_of_depths, wanted_depths, wanted_ages,
}

pub str_eq-Decides : Decides str_eq
str_eq-Decides = record { same = λ a b. (eq_iff a b).0; self = λ a. (eq_iff a a).1 refl }

pub depth_key_eq-Decides : Decides depth_key_eq
depth_key_eq-Decides = record {
  same = λ a b e. λ i. ((eq_iff a.0 b.0).0 (ground arith) i, (eq_iff a.1 b.1).0 (ground arith) i);
  self = λ a. rw ((eq_iff a.0 a.0).1 refl, (eq_iff a.1 a.1).1 refl) refl;
}

abbrev pub last_depth : DepthKey → List (DepthKey × ℕ) → Option ℕ → Option ℕ
last_depth = last_given depth_key_eq depth_key_eq-Decides

abbrev pub last_age : String → List (String × ℕ) → Option ℕ → Option ℕ
last_age = last_given str_eq str_eq-Decides

-- Whether a queue is configured.
unfoldable pub configured : String → List WeightedQueue → Bool
configured queue [] = false
configured queue (q ∷ queues) = str_eq q.name queue || configured queue queues

last_given-append :
    (key : DepthKey) (xs ys : List (DepthKey × ℕ)) (before : Option ℕ)
    → last_depth key (xs ++ ys) before ≡ last_depth key ys (last_depth key xs before)
last_given-append key [] ys before = refl
last_given-append key ((k, n) ∷ xs) ys before =
    last_given-append key xs ys (if depth_key_eq k key then some n else before)

last_given-queue_zeros :
    (key : DepthKey) (queue : String) (states : List String) (before : Option ℕ)
    → last_depth key (queue_zeros queue states) before
      ≡ (if str_eq queue key.0 && holds str_eq key.1 states then some 0 else before)
unfolding holds
last_given-queue_zeros key queue [] before = elim (Bool-cases (str_eq queue key.0)) [
  | inl e ↦ rw e refl
  | inr e ↦ rw e refl
]
last_given-queue_zeros key queue (state ∷ states) before =
    last_given-queue_zeros key queue states
      (if depth_key_eq (queue, state) key then some 0 else before)
    ∙ ground arith

last_given-depth_zeros :
    (key : DepthKey) (queues : List WeightedQueue) (before : Option ℕ)
    → last_depth key (depth_zeros queues) before ≡ (
        if configured key.0 queues && holds str_eq key.1 published_depth_states
        then some 0
        else before)
unfolding depth_zeros configured
last_given-depth_zeros key [] before = refl
last_given-depth_zeros key (q ∷ queues) before =
    last_given-append key (queue_zeros q.name published_depth_states) (depth_zeros queues) before
    ∙ last_given-depth_zeros key queues
        (last_depth key (queue_zeros q.name published_depth_states) before)
    ∙ rw (last_given-queue_zeros key q.name published_depth_states before) (ground arith)

last_given-age_zeros :
    (queue : String) (queues : List WeightedQueue) (before : Option ℕ)
    → last_age queue (age_zeros queues) before
      ≡ (if configured queue queues then some 0 else before)
unfolding age_zeros configured
last_given-age_zeros queue [] before = refl
last_given-age_zeros queue (q ∷ queues) before =
    last_given-age_zeros queue queues (if str_eq q.name queue then some 0 else before)
    ∙ ground arith

-- The depth that a refresh publishes for a queue in a state: the reading's, else zero if the queue is
-- configured and the state is one of the published states.
abbrev pub depth_wanted : List WeightedQueue → Reading → DepthKey → Option ℕ
depth_wanted queues r key =
    last_depth key (map depth_entry r.depths) (
      if configured key.0 queues && holds str_eq key.1 published_depth_states then some 0 else none)

pub lookup-wanted_depths :
    (queues : List WeightedQueue) (r : Reading) (key : DepthKey)
    → lookup depth_key_eq key (wanted_depths queues r) ≡ depth_wanted queues r key
unfolding wanted_depths lookup
lookup-wanted_depths queues r key =
    lookup-assign_all depth_key_eq depth_key_eq-Decides key (map depth_entry r.depths)
      (assign_all depth_key_eq (depth_zeros queues) [])
    ∙ ap (last_depth key (map depth_entry r.depths)) (
        lookup-assign_all depth_key_eq depth_key_eq-Decides key (depth_zeros queues) []
        ∙ last_given-depth_zeros key queues none)

-- Whether the reading has a depth of the queue.
unfoldable pub has_depth : String → List QueueDepth → Bool
has_depth queue [] = false
has_depth queue (d ∷ ds) = str_eq d.queue queue || has_depth queue ds

abbrev pub or_zero : Option ℕ → Bool → Option ℕ
or_zero none true = some 0
or_zero none false = none
or_zero (some n) b = some n

lookup_missing :
    (key : String) (m : List (String × ℕ))
    → has_key str_eq key m ≡ false
    → lookup str_eq key m ≡ none
lookup_missing key m h = elim (Option-cases (lookup str_eq key m)) [
  | inl e ↦ e
  | inr (n, e) ↦ absurd (ground (arith, lookup-has_key str_eq key m))
]

lookup_there :
    (key : String) (m : List (String × ℕ))
    → has_key str_eq key m ≡ true
    → (n : ℕ) × (lookup str_eq key m ≡ some n)
lookup_there key m h = elim (Option-cases (lookup str_eq key m)) [
  | inl e ↦ absurd (ground (arith, lookup-has_key str_eq key m))
  | inr found ↦ found
]

lookup-ages_of_depths :
    (queue : String) (ds : List QueueDepth) (ages : List (String × ℕ))
    → lookup str_eq queue (ages_of_depths ds ages)
      ≡ or_zero (lookup str_eq queue ages) (has_depth queue ds)
unfolding ages_of_depths has_depth
lookup-ages_of_depths queue [] ages = elim (Option-cases (lookup str_eq queue ages)) [
  | inl e ↦ rw e refl
  | inr (n, e) ↦ rw e refl
]
lookup-ages_of_depths queue (d ∷ ds) ages = elim (Bool-cases (has_key str_eq d.queue ages)) [
  | inl p ↦ rw p (
      lookup-ages_of_depths queue ds ages ∙ elim (Bool-cases (str_eq d.queue queue)) [
        | inr e ↦ rw e refl
        | inl e ↦
            let there =
              lookup_there queue ages
                (sym (ap (λ x. has_key str_eq x ages) ((eq_iff d.queue queue).0 e)) ∙ p) in
            rw (there.1) refl
      ])
  | inr p ↦ rw p (
      lookup-ages_of_depths queue ds (assign str_eq d.queue 0 ages)
      ∙ rw (lookup-assign str_eq str_eq-Decides queue d.queue 0 ages)
          (elim (Bool-cases (str_eq d.queue queue)) [
            | inr e ↦ rw e refl
            | inl e ↦
                let missing =
                  lookup_missing queue ages
                    (sym (ap (λ x. has_key str_eq x ages) ((eq_iff d.queue queue).0 e)) ∙ p) in
                rw (e, missing) refl
          ]))
]

-- The age that a refresh publishes for a queue: the reading's, else zero if the queue is configured or
-- has a depth in the reading.
abbrev pub age_wanted : List WeightedQueue → Reading → String → Option ℕ
age_wanted queues r queue =
    last_age queue (map age_entry r.oldest)
      (or_zero (if configured queue queues then some 0 else none) (has_depth queue r.depths))

pub lookup-wanted_ages :
    (queues : List WeightedQueue) (r : Reading) (queue : String)
    → lookup str_eq queue (wanted_ages queues r) ≡ age_wanted queues r queue
unfolding wanted_ages lookup
lookup-wanted_ages queues r queue =
    lookup-assign_all str_eq str_eq-Decides queue (map age_entry r.oldest) _
    ∙ ap (last_age queue (map age_entry r.oldest)) (
        lookup-ages_of_depths queue r.depths (assign_all str_eq (age_zeros queues) [])
        ∙ ap (λ o. or_zero o (has_depth queue r.depths))
            (lookup-assign_all str_eq str_eq-Decides queue (age_zeros queues) []
              ∙ last_given-age_zeros queue queues none))

ages_of_depths-IsMap :
    (ds : List QueueDepth) (ages : List (String × ℕ))
    → IsMap str_eq str_eq-Decides ages
    → IsMap str_eq str_eq-Decides (ages_of_depths ds ages)
unfolding ages_of_depths
ages_of_depths-IsMap [] ages h = h
ages_of_depths-IsMap (d ∷ ds) ages h = elim (Bool-cases (has_key str_eq d.queue ages)) [
  | inl p ↦ rw p (ages_of_depths-IsMap ds ages h)
  | inr p ↦ rw p (ages_of_depths-IsMap ds _ (assign-IsMap str_eq str_eq-Decides d.queue 0 ages h))
]

pub wanted-IsMap :
    (queues : List WeightedQueue) (r : Reading)
    → IsMap depth_key_eq depth_key_eq-Decides (wanted_depths queues r)
      × IsMap str_eq str_eq-Decides (wanted_ages queues r)
unfolding wanted_depths wanted_ages
wanted-IsMap queues r = (
  assign_all-IsMap depth_key_eq depth_key_eq-Decides (map depth_entry r.depths)
      (assign_all depth_key_eq (depth_zeros queues) [])
      (assign_all-IsMap depth_key_eq depth_key_eq-Decides (depth_zeros queues) [] tt),
  assign_all-IsMap str_eq str_eq-Decides (map age_entry r.oldest)
      (ages_of_depths r.depths (assign_all str_eq (age_zeros queues) []))
      (ages_of_depths-IsMap r.depths (assign_all str_eq (age_zeros queues) [])
        (assign_all-IsMap str_eq str_eq-Decides (age_zeros queues) [] tt)),
)
