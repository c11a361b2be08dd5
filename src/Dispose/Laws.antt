-- ===== src/Dispose/Laws.antt =====
-- Where dispose and runJob leave a job, over any driver that keeps the contract.
use drover.Prelude.{
  ℕ, ◌+◌, ◌≡◌, refl, ◌⊎◌, inl, inr, Option, none, some, arith, leb, if◌then◌else◌, Bool-cases,
  Option-cases, Result, ap,
}
use drover.Driver.{
  Bytes, JobState, scheduled, retryable, completed, cancelled, dead, Lease, JobRow, Error,
}
use drover.Outcome.{
  JobError, JobOutcome, outcome_failed, outcome_cancelled, outcome_snoozed, classify_outcome,
}
use drover.Retry.{RetryPolicy}
use drover.Inflight.{Inflight}
use drover.Contract.{Driver, Lands, Settles}
use drover.Dispose.{
  Marshal, Moment, lease_of, attempt_error, record_failure, dispose_as, dispose, run_job,
}

-- The state that a failed attempt leads to.
abbrev pub fate : JobRow → JobOutcome → JobState
fate row outcome_snoozed = scheduled
fate row outcome_cancelled = cancelled
fate row outcome_failed = if leb row.max_attempts row.attempt then dead else retryable

settled :
    {S : Type 0} (look : ℕ → S → Option JobRow) (lease : Lease) (state : JobState) (s : S)
    (out : S × Result Error (Unit {0}))
    → Settles look lease state s out
    → (out.0 ≡ s) ⊎ Lands look lease state s out.0
settled look lease state s out (inl (e, l)) = inr l
settled look lease state s out (inr (e, f)) = inl (ap (λ o. o.0) f)

module _ {S : Type 0} (drv : Driver S) (marshal : Marshal) (policy : RetryPolicy) where
  abbrev EndsAs : JobRow → JobState → S → S → Type 0
  EndsAs row state s s' = (s' ≡ s) ⊎ Lands drv.look (lease_of row) state s s'

  record_failure-EndsAs :
      (m : Moment) (row : JobRow) (outcome : JobOutcome) (detail : Bytes) (s : S)
      → (outcome ≡ outcome_failed) ⊎ (outcome ≡ outcome_cancelled)
      → EndsAs row (fate row outcome) s (record_failure drv marshal policy m row outcome detail s)
  unfolding record_failure
  record_failure-EndsAs m row outcome_cancelled detail s h =
      settled drv.look (lease_of row) cancelled s _
        (drv.cancelled_lem m.store_now (lease_of row) (some detail) s)
  record_failure-EndsAs m row outcome_snoozed detail s (inl e) = absurd (ground arith)
  record_failure-EndsAs m row outcome_snoozed detail s (inr e) = absurd (ground arith)
  record_failure-EndsAs m row outcome_failed detail s h =
      elim (Bool-cases (leb row.max_attempts row.attempt)) [
        | inl spent ↦ rw spent (
            settled drv.look (lease_of row) dead s _
              (drv.dead_lem m.store_now (lease_of row) (some detail) s))
        | inr left ↦ rw left (
            settled drv.look (lease_of row) retryable s _
              (drv.retryable_lem (lease_of row) _ (some detail) s))
      ]

  dispose_as-EndsAs :
      (m : Moment) (row : JobRow) (e : JobError) (outcome : JobOutcome) (wait : ℕ) (s : S)
      → EndsAs row (fate row outcome) s (dispose_as drv marshal policy m row e outcome wait s)
  unfolding dispose_as
  dispose_as-EndsAs m row e outcome_snoozed wait s =
      settled drv.look (lease_of row) scheduled s _
        (drv.snoozed_lem (lease_of row) (m.snooze_now + wait) s)
  dispose_as-EndsAs m row e outcome_cancelled wait s =
      elim (Option-cases (marshal (attempt_error m row e))) [
        | inl n ↦ rw (n, dispose_as) (inl refl)
        | inr (detail, d) ↦
            rw (d, dispose_as) (record_failure-EndsAs m row outcome_cancelled detail s (inr refl))
      ]
  dispose_as-EndsAs m row e outcome_failed wait s =
      elim (Option-cases (marshal (attempt_error m row e))) [
        | inl n ↦ rw (n, dispose_as) (inl refl)
        | inr (detail, d) ↦
            rw (d, dispose_as) (record_failure-EndsAs m row outcome_failed detail s (inl refl))
      ]

  -- An attempt that failed either changes nothing (the write was refused or the record could not be
  -- encoded), or it ends in exactly one way: scheduled if the handler asked for a snooze, cancelled if it
  -- gave up, dead if the attempts are used up and retryable otherwise. It then no longer holds a lease,
  -- it was running on the attempt in hand, and no other job is touched.
  pub dispose-EndsAs :
      (m : Moment) (row : JobRow) (e : JobError) (s : S)
      → EndsAs row (fate row (classify_outcome e).0) s (dispose drv marshal policy m row e s)
  unfolding dispose
  dispose-EndsAs m row e s =
      dispose_as-EndsAs m row e (classify_outcome e).0 (classify_outcome e).1 s

  abbrev RanAs : Option JobError → JobRow → JobState
  RanAs none row = completed
  RanAs (some e) row = fate row (classify_outcome e).0

  -- What a worker does with a claimed job it has run: to the store as the others left it, one write at
  -- most, which completes the job if the chain returned no error and otherwise disposes of it.
  pub run_job-EndsAs :
      (m : Moment) (row : JobRow) (result : Option JobError) (meanwhile : S → S)
      (tracked : Inflight → Inflight) (s : S) (inflight : Inflight)
      → EndsAs row
          (RanAs result row)
          (meanwhile s)
          (run_job drv marshal policy m row result meanwhile tracked s inflight).0
  unfolding run_job
  run_job-EndsAs m row none meanwhile tracked s inflight =
      settled drv.look (lease_of row) completed (meanwhile s) _
        (drv.completed_lem m.store_now (lease_of row) (meanwhile s))
  run_job-EndsAs m row (some e) meanwhile tracked s inflight = dispose-EndsAs m row e (meanwhile s)
