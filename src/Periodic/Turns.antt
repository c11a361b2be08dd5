-- ===== src/Periodic/Turns.antt =====
-- enqueueDuePeriodic and a turn of schedulePeriodic in scheduler.go, over the periodic jobs of a client.
use drover.Prelude.{
  ℕ, ◌-◌, Bool, true, false, ◌||◌, List, [], ◌∷◌, map, Option, none, some, ltb, ◌==◌, if◌then◌else◌,
  Result, ok, err,
}
use drover.Driver.{Time, Error}
use drover.Periodic.{Ended, caught_up, halted, Turn, enqueue_due}

-- A job's schedule, and insertPeriodicTick for it.
pub record Entry (S : Type 0) : Type 0 where
  pub next : Time → Time
  pub insert_tick : Time → S → S × Bool

-- What a turn leaves: the store, the watermarks, the fires that come next, the soonest of them with 0 for
-- none, and whether the context ended.
pub record Round (S : Type 0) : Type 0 where
  pub store : S
  pub lasts : List Time
  pub fires : List Time
  pub soonest : Time
  pub stopped : Bool

abbrev pub is_halted : Ended → Bool
is_halted halted = true
is_halted _ = false

abbrev pub sooner : Time → Time → Time
sooner fire soonest =
    if fire == 0 then soonest else if soonest == 0 || ltb fire soonest then fire else soonest

abbrev pub begin_turn : {S : Type 0} → Entry S → Time → S → Turn S
begin_turn entry last s = record {
  store = s;
  last = last;
  fire = entry.next last;
  fired = [];
  ended = caught_up;
}

abbrev pub watermarks : {S : Type 0} → List (Entry S × Time) → List Time
watermarks entries = map (λ e. e.1) entries

module _ {S : Type 0} (stops : Time → Bool) where
  -- The loop over the jobs, each with its watermark.
  unfoldable pub enqueue_entries : ℕ → Time → List (Entry S × Time) → S → Time → Option (Round S)
  unfolding enqueue_due
  enqueue_entries n now [] s soonest =
      some (record { store = s; lasts = []; fires = []; soonest = soonest; stopped = false })
  enqueue_entries n now ((entry, last) ∷ entries) s soonest =
      elim (enqueue_due entry.next entry.insert_tick stops n now (begin_turn entry last s)) [
        | none ↦ none
        | some t ↦ elim (is_halted t.ended) [
          | true ↦ some (record {
            store = t.store;
            lasts = t.last ∷ watermarks entries;
            fires = [];
            soonest = soonest;
            stopped = true;
          })
          | false ↦ elim (enqueue_entries n now entries t.store (sooner t.fire soonest)) [
            | none ↦ none
            | some r ↦ some (record r { lasts = t.last ∷ r.lasts; fires = t.fire ∷ r.fires })
          ]
        ]
      ]

-- What enqueueDuePeriodic returns, with waitFetch's clamp of a negative wait.
unfoldable pub wait : {S : Type 0} → ℕ → Time → Round S → ℕ
wait poll now r = if r.stopped then 0 else if r.soonest == 0 then poll else r.soonest - now

-- The scheduler between two turns.
pub record Scheduler : Type 0 where
  pub was_leader : Bool
  pub last_fires : List Time

-- `lastFire[i] = now` for each job.
abbrev pub restart : {S : Type 0} → Time → List (Entry S) → List (Entry S × Time)
restart now [] = []
restart now (e ∷ es) = (e, now) ∷ restart now es

abbrev pub resume : {S : Type 0} → List (Entry S) → List Time → List (Entry S × Time)
resume [] lasts = []
resume (e ∷ es) [] = (e, 0) ∷ resume es []
resume (e ∷ es) (last ∷ lasts) = (e, last) ∷ resume es lasts

-- The watermarks that a leader's turn starts at: it starts anew when it has gained the lock.
abbrev pub watched : {S : Type 0} → List (Entry S) → Time → Scheduler → List (Entry S × Time)
watched entries gained sch =
    if sch.was_leader then resume entries sch.last_fires else restart gained entries

module _ {S : Type 0} (stops : Time → Bool) (poll : ℕ) (entries : List (Entry S)) where
  -- One round of schedulePeriodic's loop with the answer of TryBecomeLeader, which is `ok true` where the
  -- driver has no lock. `gained` and `now` are the clock's two readings.
  unfoldable pub schedule_turn :
      ℕ → Result Error Bool → Time → Time → Scheduler → S → Option (Scheduler × S × ℕ)
  unfolding enqueue_entries wait
  schedule_turn n (err e) gained now sch s = some (record sch { was_leader = false }, s, poll)
  schedule_turn n (ok false) gained now sch s = some (record sch { was_leader = false }, s, poll)
  schedule_turn n (ok true) gained now sch s =
      elim (enqueue_entries stops n now (watched entries gained sch) s 0) [
        | none ↦ none
        | some r ↦
            some (record { was_leader = true; last_fires = r.lasts }, r.store, wait poll now r)
      ]
