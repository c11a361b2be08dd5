-- ===== src/Sql/Statements.antt =====
-- The statements that change stored rows. `append` is jsonb's `||` at the errors column. Instants, durations and
-- texts are those that reach Postgres: what they are of the caller's is the Wire of PgDriver.
use drover.Prelude.{
  ℕ, ◌+◌, ◌-◌, String, Bool, false, not, ◌&&◌, ◌||◌, List, [], ◌∷◌, map, Option, none, some, ltb,
  leb, ◌==◌, str_eq, if◌then◌else◌, take, keep_if, sort_by, Result, ok, err,
}
use drover.Driver.{
  Time, Bytes, JobState, available, scheduled, running, retryable, completed, cancelled, dead,
}
use drover.MemDriver.Insert.{unique_active}
use drover.MemDriver.Claim.{waiting, is_running}
use drover.MemDriver.Operator.{cancellable, is_dead}
use drover.Sql.{DbJob, Table, find_job, put_job, put_jobs}

-- A violated index, or any other failure by its code.
pub data PgError : Type 0 where
  unique_active_violation : PgError
  failure : ℕ → PgError

-- WHERE id = $1 AND attempt = $2 AND state = 'running': the new table and the rows affected.
unfoldable pub mark_where : (DbJob → DbJob) → ℕ → ℕ → Table → Table × ℕ
mark_where change id attempt t = elim (find_job id t.rows) [
  | none ↦ (t, 0)
  | some job ↦
      if job.attempt == attempt && is_running job.state
      then (record t { rows = put_job (change job) t.rows }, 1)
      else (t, 0)
]

abbrev pub set_finalized : Time → JobState → DbJob → DbJob
set_finalized now state job = record job {
  state = state;
  finalized_at = some now;
  leased_until = none;
}

unfoldable pub mark_completed : Time → ℕ → ℕ → Table → Table × ℕ
unfolding mark_where
mark_completed now id attempt t = mark_where (set_finalized now completed) id attempt t

module _ (append : Bytes → Bytes → Bytes) where
  abbrev pub set_failed : Time → JobState → Bytes → DbJob → DbJob
  set_failed now state detail job = record job {
    state = state;
    finalized_at = some now;
    leased_until = none;
    errors = append job.errors detail;
  }

  abbrev pub set_retryable : Time → Bytes → DbJob → DbJob
  set_retryable at detail job = record job {
    state = retryable;
    scheduled_at = at;
    leased_until = none;
    errors = append job.errors detail;
  }

  unfoldable pub mark_cancelled : Time → Bytes → ℕ → ℕ → Table → Table × ℕ
  unfolding mark_where
  mark_cancelled now detail id attempt t = mark_where (set_failed now cancelled detail) id attempt t

  unfoldable pub mark_dead : Time → Bytes → ℕ → ℕ → Table → Table × ℕ
  unfolding mark_where
  mark_dead now detail id attempt t = mark_where (set_failed now dead detail) id attempt t

  unfoldable pub mark_retryable : Time → Bytes → ℕ → ℕ → Table → Table × ℕ
  unfolding mark_where
  mark_retryable at detail id attempt t = mark_where (set_retryable at detail) id attempt t

-- GREATEST(attempt - 1, 0).
abbrev pub set_snoozed : Time → DbJob → DbJob
set_snoozed at job = record job {
  state = scheduled;
  scheduled_at = at;
  leased_until = none;
  attempt = job.attempt - 1;
}

unfoldable pub mark_snoozed : Time → ℕ → ℕ → Table → Table × ℕ
unfolding mark_where
mark_snoozed at id attempt t = mark_where (set_snoozed at) id attempt t

-- ORDER BY a key, then id.
unfoldable pub ordered_by : (DbJob → Time) → DbJob → DbJob → Bool
ordered_by key a b = if key a == key b then leb a.id b.id else ltb (key a) (key b)

-- `locked` are the rows that other transactions hold, which SKIP LOCKED passes over.
abbrev pub claimable : Time → String → (ℕ → Bool) → DbJob → Bool
claimable now queue locked job =
    not (locked job.id)
    && (waiting job.state && str_eq job.queue queue && not (ltb now job.scheduled_at))

-- A null lease is not <= now().
abbrev pub lapsed : Time → (ℕ → Bool) → DbJob → Bool
lapsed now locked job =
    not (locked job.id)
    && (is_running job.state && elim job.leased_until [ none ↦ false | some u ↦ not (ltb now u) ])

abbrev pub lease_key : DbJob → Time
lease_key job = elim job.leased_until [ none ↦ 0 | some u ↦ u ]

abbrev pub set_claimed : Time → DbJob → DbJob
set_claimed until job = record job {
  state = running;
  attempt = job.attempt + 1;
  leased_until = some until;
}

abbrev pub set_leased : Time → DbJob → DbJob
set_leased until job = record job { leased_until = some until }

-- The rows of the subselect, changed, are written back; RETURNING lists them in an order that the
-- database chooses, `returning`.
unfoldable pub claim_rows :
    (List DbJob → List DbJob) → (DbJob → DbJob) → List DbJob → Table → Table × List DbJob
claim_rows returning change chosen t =
    (record t { rows = put_jobs (map change chosen) t.rows }, returning (map change chosen))

module _ (locked : ℕ → Bool) (returning : List DbJob → List DbJob) where
  unfoldable pub fetch_available : Time → Time → String → ℕ → Table → Table × List DbJob
  unfolding claim_rows
  fetch_available now interval queue max_jobs t =
      claim_rows returning (set_claimed (now + interval))
        (take max_jobs (
          sort_by (ordered_by (λ job. job.scheduled_at))
            (keep_if (claimable now queue locked) t.rows)))
        t

  unfoldable pub fetch_expired : Time → Time → ℕ → Table → Table × List DbJob
  unfolding claim_rows
  fetch_expired now interval max_jobs t =
      claim_rows returning (set_leased (now + interval))
        (take max_jobs (sort_by (ordered_by lease_key) (keep_if (lapsed now locked) t.rows))) t

-- One pair of the unnested arrays.
unfoldable pub extend_held : Time → ℕ × ℕ → List DbJob → List DbJob
extend_held until (id, attempt) jobs = elim (find_job id jobs) [
  | none ↦ jobs
  | some job ↦
      if job.attempt == attempt && is_running job.state
      then put_job (set_leased until job) jobs
      else jobs
]

unfoldable pub extend_leases : Time → Time → List (ℕ × ℕ) → Table → Table
unfolding extend_held
extend_leases now interval [] t = t
extend_leases now interval (held ∷ rest) t =
    extend_leases now interval rest (record t { rows = extend_held (now + interval) held t.rows })

-- Whether another row than `job` holds its slot in drover_jobs_unique_active_idx.
unfoldable pub slot_taken : DbJob → List DbJob → Bool
slot_taken job [] = false
slot_taken job (other ∷ jobs) =
    (elim job.unique_key [
      | none ↦ false
      | some key ↦ elim other.unique_key [
        | none ↦ false
        | some key' ↦
            not (other.id == job.id)
            && (str_eq key' key && str_eq other.queue job.queue && str_eq other.kind job.kind)
            && unique_active other.state
      ]
    ])
    || slot_taken job jobs

-- RETURNING of an UPDATE of one id: no row is `none`.
unfoldable pub operator_cancel : Time → ℕ → Table → Table × Option DbJob
operator_cancel now id t = elim (find_job id t.rows) [
  | none ↦ (t, none)
  | some job ↦
      if cancellable job.state
      then (
        record t { rows = put_job (set_finalized now cancelled job) t.rows },
        some (set_finalized now cancelled job),
      )
      else (t, none)
]

abbrev pub set_redriven : Time → DbJob → DbJob
set_redriven now job = record job {
  state = available;
  attempt = 0;
  leased_until = none;
  finalized_at = none;
  scheduled_at = now;
}

-- The row enters the unique index again, which can refuse it; the other UPDATEs leave a row in its slot
-- or take it out.
unfoldable pub redrive_dead : Time → ℕ → Table → Table × Result PgError (Option DbJob)
unfolding slot_taken
redrive_dead now id t = elim (find_job id t.rows) [
  | none ↦ (t, ok none)
  | some job ↦
      if not (is_dead job.state)
      then (t, ok none)
      else if slot_taken (set_redriven now job) t.rows
      then (t, err unique_active_violation)
      else (
        record t { rows = put_job (set_redriven now job) t.rows },
        ok (some (set_redriven now job)),
      )
]
