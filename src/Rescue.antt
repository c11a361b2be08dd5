-- ===== src/Rescue.antt =====
-- rescue.go: one sweep for jobs whose lease has lapsed.
pub mod Laws
mod Tests
use drover.Prelude.{
  ℕ, zero, suc, ◌+◌, Bool, true, false, ◌||◌, List, [], ◌∷◌, ltb, if◌then◌else◌, length, Result, ok,
  err,
}
use drover.Driver.{Time, JobRow, Error}
use drover.Outcome.{JobError, message}
use drover.Retry.{RetryPolicy}
use drover.Contract.{Driver}
use drover.Dispose.{Marshal, Moment, dispose}

abbrev pub rescue_batch : ℕ
rescue_batch = 100

abbrev pub rescue_rounds : ℕ
rescue_rounds = 10

abbrev pub err_lease_expired : JobError
err_lease_expired = message "drover: lease expired, worker presumed dead"

-- `moments` has the clock readings for each row, and `stopped` says whether the context is cancelled at
-- the end of a round, both by the number of rows and rounds so far.
module _ {S : Type 0} (drv : Driver S) (marshal : Marshal) (policy : RetryPolicy)
    (moments : ℕ → Moment) (stopped : ℕ → Bool) where
  -- The loop over the rows of a round, with `rescued` rows behind it.
  unfoldable pub dispose_rows : ℕ → List JobRow → S → S
  dispose_rows rescued [] s = s
  dispose_rows rescued (row ∷ rows) s =
      dispose_rows (rescued + 1) rows
        (dispose drv marshal policy (moments rescued) row err_lease_expired s)

  -- The loop over the rounds: how many are left, and how many rows were rescued.
  unfoldable pub rescue_from : (ℕ → Time) → Time → ℕ → ℕ → S → S × (ℕ × Result Error (Unit {0}))
  unfolding dispose_rows
  rescue_from clock lease zero rescued s = (s, (rescued, ok tt))
  rescue_from clock lease (suc rounds) rescued s =
      let fetched = drv.fetch_expired (clock rescued) lease rescue_batch s in
      elim fetched.1 [
        | err e ↦ (fetched.0, (rescued, err e))
        | ok rows ↦
            let s' = dispose_rows rescued rows fetched.0 in
            let rest = rescue_from clock lease rounds (rescued + length rows) s' in
            if ltb (length rows) rescue_batch || stopped rounds
            then (s', (rescued + length rows, ok tt))
            else rest
      ]

  unfoldable pub rescue_once : (ℕ → Time) → Time → S → S × (ℕ × Result Error (Unit {0}))
  unfolding rescue_from
  rescue_once clock lease s = rescue_from clock lease rescue_rounds 0 s
