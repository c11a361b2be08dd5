-- ===== src/Dispose.antt =====
-- loop.go: what becomes of a job once its attempt has ended, and requeue of pool.go. Logging is left
-- out. encoding/json's Marshal at driver.AttemptError is the parameter `marshal`; the error's text
-- stands as the error itself. Each reading of a clock is a field of `Moment`.
pub mod Laws
pub mod Mem
mod Tests
use drover.Prelude.{
  ℕ, ◌+◌, Bool, true, false, List, [], ◌∷◌, Option, none, some, leb, if◌then◌else◌, Result, ok, err,
}
use drover.Driver.{
  Time, Bytes, JobState, scheduled, retryable, cancelled, dead, Lease, JobRow, Error,
}
use drover.Outcome.{
  JobError, message, JobOutcome, outcome_failed, outcome_cancelled, outcome_snoozed,
  classify_outcome, stack_of,
}
use drover.Retry.{RetryPolicy, retry_at}
use drover.Inflight.{Inflight, add, remove}
use drover.Contract.{Driver}

pub record AttemptError : Type 0 where
  pub attempt : ℕ
  pub at : Time
  pub error : JobError
  pub trace : Bytes

abbrev pub Marshal : Type 0
Marshal = AttemptError → Option Bytes

-- The client's clock where a snooze, an error record, a retry and the default schedule read it, the
-- store's clock, and the draw of the default schedule.
pub record Moment : Type 0 where
  pub snooze_now : Time
  pub stamp : Time
  pub retry_now : Time
  pub policy_now : Time
  pub store_now : Time
  pub draw : ℕ

abbrev pub lease_of : JobRow → Lease
lease_of row = record { id = row.id; attempt = row.attempt }

abbrev pub attempt_error : Moment → JobRow → JobError → AttemptError
attempt_error m row e = record {
  attempt = row.attempt;
  at = m.stamp;
  error = e;
  trace = stack_of e;
}

module _ {S : Type 0} (drv : Driver S) (marshal : Marshal) (policy : RetryPolicy) where
  -- The switch at the end of dispose.
  unfoldable pub record_failure : Moment → JobRow → JobOutcome → Bytes → S → S
  record_failure m row outcome_cancelled detail s =
      (drv.mark_cancelled m.store_now (lease_of row) (some detail) s).0
  record_failure m row _ detail s =
      if leb row.max_attempts row.attempt
      then (drv.mark_dead m.store_now (lease_of row) (some detail) s).0
      else (drv.mark_retryable (lease_of row) (retry_at policy row m.retry_now m.policy_now m.draw)
          (some detail) s).0

  -- dispose, after classifyOutcome.
  unfoldable pub dispose_as : Moment → JobRow → JobError → JobOutcome → ℕ → S → S
  unfolding record_failure
  dispose_as m row e outcome_snoozed wait s =
      (drv.mark_snoozed (lease_of row) (m.snooze_now + wait) s).0
  dispose_as m row e outcome wait s = elim (marshal (attempt_error m row e)) [
    | none ↦ s
    | some detail ↦ record_failure m row outcome detail s
  ]

  unfoldable pub dispose : Moment → JobRow → JobError → S → S
  unfolding dispose_as
  dispose m row e s = let (outcome, wait) = classify_outcome e in dispose_as m row e outcome wait s

  -- runJob: `result` is what the handler chain returned, and `meanwhile` and `tracked` what others did
  -- to the store and the in-flight set while it ran.
  unfoldable pub run_job :
      Moment
      → JobRow
      → Option JobError
      → (S → S)
      → (Inflight → Inflight)
      → S
      → Inflight
      → S × Inflight
  unfolding dispose
  run_job m row result meanwhile tracked s inflight = (
    elim result [
      | none ↦ (drv.mark_completed m.store_now (lease_of row) (meanwhile s)).0
      | some e ↦ dispose m row e (meanwhile s)
    ],
    remove (lease_of row) (tracked (add (lease_of row) inflight)),
  )

module _ {S : Type 0} (drv : Driver S) (marshal : Marshal) where
  -- The encoding error of requeue is the contract's encode_errors.
  unfoldable pub requeue : Time → Time → Lease → S → S × Result Error (Unit {0})
  requeue stamp now lease s =
      elim (marshal
        (record { attempt = lease.attempt; at = stamp; error = shutdown; trace = [] })) [
          | none ↦ (s, err (Error.encode_errors lease.id))
          | some detail ↦ drv.mark_retryable lease now (some detail) s
        ]
    where
      shutdown : JobError
      shutdown = message "drover: worker shut down before this attempt finished"

-- How writeFailed and requeueFailed report a write that did not land.
pub data Level : Type 0 where
  routine fault : Level

unfoldable pub write_failed_level : Error → Level
write_failed_level (Error.lease_lost id row held) = routine
write_failed_level (Error.invalid_transition id state) = routine
write_failed_level _ = fault
