-- ===== src/Dispose/Tests.antt =====
-- A failing attempt of the sample store's running job.
use drover.Prelude.{◌≡◌, ◌⊎◌, refl, [], ◌∷◌, none, some}
use drover.Driver.{running, completed, JobRow}
use drover.MemDriver.Rows.{find_row}
use drover.MemDriver.Sample.{split, write, read, marked, job, sample}
use drover.Outcome.{JobError, message, classify_outcome, is_cancelled, as_snooze, is_snoozed}
use drover.Retry.{RetryPolicy}
use drover.Contract.{Lands, mem_driver}
use drover.Dispose.{Marshal, Moment, lease_of, dispose, run_job}
use drover.Dispose.Laws.{fate, run_job-EndsAs}
use drover.Dispose.Mem.{EndsIn, dispose-EndsIn}

abbrev marshal : Marshal
marshal e = some (e.attempt ∷ e.at ∷ [])

abbrev policy : RetryPolicy
policy row = none

abbrev moment : Moment
moment = record {
  snooze_now = 20;
  stamp = 21;
  retry_now = 22;
  policy_now = 23;
  store_now = 24;
  draw = 5;
}

abbrev first : JobRow
first = job 1 running 1 (some 60) none ""

abbrev boom : JobError
boom = message "boom"

dispose-EndsIn_example :
    EndsIn first
      (fate first (classify_outcome boom).0)
      1
      (dispose (mem_driver marked) marshal policy moment first boom sample)
unfolding classify_outcome is_cancelled is_snoozed as_snooze
dispose-EndsIn_example =
    dispose-EndsIn marked marshal policy moment first first sample boom [] (1 ∷ 21 ∷ [])
      (write ((1 ∷ 21 ∷ []) ∷ [])) (unfold find_row in refl) refl refl
      (unfold read split write in refl) refl refl

run_job-EndsAs_example :
    let after =
      (run_job
        (mem_driver marked)
        marshal
        policy
        moment
        first
        none
        (λ s. s)
        (λ l. l)
        sample
        []).0 in
    (after ≡ sample) ⊎ Lands (mem_driver marked).look (lease_of first) completed sample after
run_job-EndsAs_example =
    run_job-EndsAs (mem_driver marked) marshal policy moment first none (λ s. s) (λ l. l) sample []
