-- ===== src/Dispose/Mem.antt =====
-- dispose of loop.go over memdriver.
use drover.Prelude.{
  ℕ, ◌+◌, ◌-◌, ◌≡◌, refl, ◌≢◌, inl, inr, true, List, [], ◌∷◌, ◌++◌, none, some, arith, leb,
  Bool-cases, Result, ok, ap, ==_iff,
}
use drover.Driver.{
  Time, Bytes, JobState, scheduled, retryable, cancelled, dead, Lease, JobRow, Error, Codec,
}
use drover.MemDriver.Rows.{Store, find_row}
use drover.MemDriver.RowLaws.{find_row-put_row, find_row-id}
use drover.MemDriver.Claim.{is_running}
use drover.MemDriver.Mark.{
  append_error, commit, transition, finalized, retried, snoozed, finalize, mark_dead,
  mark_cancelled, mark_retryable, mark_snoozed,
}
use drover.Outcome.{
  JobError, JobOutcome, outcome_failed, outcome_cancelled, outcome_snoozed, classify_outcome,
}
use drover.Retry.{RetryPolicy}
use drover.Contract.{mem_driver}
use drover.Dispose.Laws.{fate}
use drover.Dispose.{Marshal, Moment, lease_of, attempt_error, record_failure, dispose_as, dispose}

-- The store after the holder's write.
holder-writes :
    (lease : Lease) (apply : JobRow → Result Error JobRow) (s : Store) (r x : JobRow)
    → find_row lease.id s.jobs ≡ some r
    → is_running r.state ≡ true
    → r.attempt ≡ lease.attempt
    → apply r ≡ ok x
    → x.id ≡ r.id
    → find_row lease.id (transition lease apply s).0.jobs ≡ some (record x { leased_until = none })
unfolding transition commit
holder-writes lease apply s r x here on held a same =
    rw (here, transition)
      (rw (on, (==_iff r.attempt lease.attempt).1 held, a, commit)
        (ground (
          arith,
          find_row-put_row lease.id (record x { leased_until = none }) s.jobs,
          find_row-id lease.id r s.jobs here,
        )))

-- The attempts that a job has used after its attempt has ended so.
abbrev pub attempts_after : JobOutcome → ℕ → ℕ
attempts_after outcome_snoozed n = n - 1
attempts_after _ n = n

-- The stored row of the job ends in `state`, without a lease, with `n` attempts used.
abbrev pub EndsIn : JobRow → JobState → ℕ → Store → Type 0
EndsIn row state n s =
    (r : JobRow) × (find_row row.id s.jobs ≡ some r)
    × (r.state ≡ state)
    × (r.leased_until ≡ none)
    × (r.attempt ≡ n)

module _ (codec : Codec) (marshal : Marshal) (policy : RetryPolicy) (m : Moment) (row r : JobRow)
    (s : Store) (xs : List Bytes) (detail b : Bytes) (here : find_row row.id s.jobs ≡ some r)
    (on : is_running r.state ≡ true) (held : r.attempt ≡ row.attempt)
    (before : codec.decode r.errors ≡ some xs)
    (room : codec.encode (xs ++ detail ∷ []) ≡ some b) where
  finalized-ok :
      (now : Time) (state : JobState)
      → finalized codec now state (some detail) r
        ≡ ok (record r { errors = b; state = state; finalized_at = some now })
  unfolding finalized append_error
  finalized-ok now state = ground arith

  retried-ok :
      (at : Time)
      → retried codec at (some detail) r
        ≡ ok (record r { errors = b; state = retryable; scheduled_at = at })
  unfolding retried append_error
  retried-ok at = ground arith

  snoozed-ok :
      (at : Time)
      → snoozed at r
        ≡ ok (record r { state = scheduled; scheduled_at = at; attempt = r.attempt - 1 })
  unfolding snoozed
  snoozed-ok at = refl

  record_failure-EndsIn :
      (outcome : JobOutcome)
      → outcome ≢ outcome_snoozed
      → EndsIn row
          (fate row outcome)
          row.attempt
          (record_failure (mem_driver codec) marshal policy m row outcome detail s)
  unfolding record_failure mark_cancelled mark_dead mark_retryable finalize
  record_failure-EndsIn outcome_snoozed h = absurd (h refl)
  record_failure-EndsIn outcome_cancelled h = (
    _,
    holder-writes (lease_of row) _ s r _ here on held (finalized-ok m.store_now cancelled) refl,
    refl,
    refl,
    held,
  )
  record_failure-EndsIn outcome_failed h = elim (Bool-cases (leb row.max_attempts row.attempt)) [
    | inl spent ↦ rw spent (
      _,
      holder-writes (lease_of row) _ s r _ here on held (finalized-ok m.store_now dead) refl,
      refl,
      refl,
      held,
    )
    | inr left ↦
        rw left (
          _,
          holder-writes (lease_of row) _ s r _ here on held (retried-ok _) refl,
          refl,
          refl,
          held,
        )
  ]

  dispose_as-EndsIn :
      (e : JobError) (outcome : JobOutcome) (wait : ℕ)
      → marshal (attempt_error m row e) ≡ some detail
      → EndsIn row
          (fate row outcome)
          (attempts_after outcome row.attempt)
          (dispose_as (mem_driver codec) marshal policy m row e outcome wait s)
  unfolding dispose_as mark_snoozed
  dispose_as-EndsIn e outcome_snoozed wait d = (
    record r {
      state = scheduled;
      scheduled_at = m.snooze_now + wait;
      attempt = r.attempt - 1;
      leased_until = none;
    },
    holder-writes (lease_of row) (snoozed (m.snooze_now + wait)) s r _ here on held
        (snoozed-ok (m.snooze_now + wait)) refl,
    refl,
    refl,
    ap (λ n. n - 1) held,
  )
  dispose_as-EndsIn e outcome_cancelled wait d =
      rw (d, dispose_as) (record_failure-EndsIn outcome_cancelled (λ h. ground arith))
  dispose_as-EndsIn e outcome_failed wait d =
      rw (d, dispose_as) (record_failure-EndsIn outcome_failed (λ h. ground arith))

-- Over memdriver, disposing of a job that is still running on the attempt in hand always takes it out
-- of running, to the state that its error and its attempts call for, with its lease cleared; a snooze
-- gives the attempt back and nothing else does. This needs that the record of the error can be encoded,
-- alone and at the end of the job's errors array.
pub dispose-EndsIn :
    (codec : Codec) (marshal : Marshal) (policy : RetryPolicy) (m : Moment) (row r : JobRow)
    (s : Store) (e : JobError) (xs : List Bytes) (detail b : Bytes)
    → find_row row.id s.jobs ≡ some r
    → is_running r.state ≡ true
    → r.attempt ≡ row.attempt
    → codec.decode r.errors ≡ some xs
    → codec.encode (xs ++ detail ∷ []) ≡ some b
    → marshal (attempt_error m row e) ≡ some detail
    → let outcome = (classify_outcome e).0 in
      EndsIn row
        (fate row outcome)
        (attempts_after outcome row.attempt)
        (dispose (mem_driver codec) marshal policy m row e s)
unfolding dispose
dispose-EndsIn codec marshal policy m row r s e xs detail b here on held before room d =
    dispose_as-EndsIn codec marshal policy m row r s xs detail b here on held before room e
      (classify_outcome e).0 (classify_outcome e).1 d
