-- ===== src/Rescue/Tests.antt =====
-- A sweep of the sample store after the running job's lease has lapsed.
use drover.Prelude.{ℕ, ◌≡◌, ◌≢◌, Bool, false, List, [], ◌∷◌, none, some, All}
use drover.Driver.{running, JobRow}
use drover.MemDriver.Sample.{marked, job, sample}
use drover.Retry.{RetryPolicy}
use drover.Contract.{mem_driver}
use drover.Dispose.{Marshal, Moment}
use drover.Rescue.{dispose_rows}
use drover.Rescue.Laws.{KeptOrFailed, dispose_rows-KeptOrFailed}

abbrev marshal : Marshal
marshal e = some (e.attempt ∷ e.at ∷ [])

abbrev policy : RetryPolicy
policy row = none

abbrev moments : ℕ → Moment
moments n = record {
  snooze_now = 70;
  stamp = 70;
  retry_now = 71;
  policy_now = 71;
  store_now = 72;
  draw = 5;
}

abbrev never : ℕ → Bool
never n = false

abbrev lapsed : List JobRow
lapsed = job 1 running 1 (some 60) none "" ∷ []

dispose_rows-KeptOrFailed_example :
    KeptOrFailed
      (mem_driver marked)
      marshal
      policy
      moments
      never
      4
      sample
      (dispose_rows (mem_driver marked) marshal policy moments never 0 lapsed sample)
    × (All (λ r. 4 ≢ r.id) lapsed
        → (mem_driver marked).look 4
            (dispose_rows (mem_driver marked) marshal policy moments never 0 lapsed sample)
          ≡ (mem_driver marked).look 4 sample)
dispose_rows-KeptOrFailed_example =
    dispose_rows-KeptOrFailed (mem_driver marked) marshal policy moments never 4 0 lapsed sample
