-- ===== src/Periodic.antt =====
-- scheduler.go: the ticks that a leader enqueues for a periodic job. The schedule's Next is the parameter
-- `next`, with the zero time where there is no further fire. Turns is about all jobs and the leadership.
pub mod Watermark
pub mod Turns
pub mod Checked
pub mod Schedulable
pub mod Waits
mod Tests
use drover.Prelude.{
  ℕ, zero, suc, Bool, true, false, ◌||◌, List, [], ◌∷◌, ◌++◌, Option, none, some, ltb, ◌==◌,
  if◌then◌else◌, Result, ok, err,
}
use drover.Driver.{Time}
use drover.Client.Enqueue.{ClientError, err_duplicate_job}

-- How the loop over one job's fires ended: nothing more is due, the store failed, the context ended.
pub data Ended : Type 0 where
  caught_up failed halted : Ended

-- The store, the job's last fire, the fire that is next, and the fires that were enqueued.
pub record Turn (S : Type 0) : Type 0 where
  pub store : S
  pub last : Time
  pub fire : Time
  pub fired : List Time
  pub ended : Ended

-- What insertPeriodicTick reports of its insert; `stopped` is whether the context has ended.
unfoldable pub tick_lands : {A : Type 0} → Bool → Result ClientError A → Bool
tick_lands stopped (ok a) = true
tick_lands true (err e) = false
tick_lands false (err err_duplicate_job) = true
tick_lands false (err e) = false

module _ {S : Type 0} (next : Time → Time) (insert_tick : Time → S → S × Bool)
    (stopped : Time → Bool) where
  -- The loop over the fires that are due by `now`, on fuel.
  unfoldable pub enqueue_due : ℕ → Time → Turn S → Option (Turn S)
  enqueue_due zero now t = none
  enqueue_due (suc n) now t =
      let out = insert_tick t.fire t.store in
      let rest = enqueue_due n now (record {
        store = out.0;
        last = t.fire;
        fire = next t.fire;
        fired = t.fired ++ t.fire ∷ [];
        ended = caught_up;
      }) in
      if t.fire == 0 || ltb now t.fire
      then some (record t { ended = caught_up })
      else if stopped t.fire
      then some (record t { ended = halted })
      else if out.1
      then rest
      else some (record t { store = out.0; ended = failed })
