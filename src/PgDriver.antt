-- ===== src/PgDriver.antt =====
-- internal/pgdriver/pgdriver.go: the driver over the generated queries. A query is a field of `Queries`
-- and may fail; `none` is pgx.ErrNoRows. InsertMany's staging table and its transaction are the field
-- insert_batch. `between` is what other sessions do to the table before a re-read.
pub mod Calls
pub mod Rows
pub mod Marks
pub mod Claims
pub mod Leases
pub mod Slots
pub mod Inserting
pub mod Passes
pub mod Operators
pub mod Stats
pub mod Leader
pub mod Leadership
mod Tests
use drover.Prelude.{
  ℕ, ◌-◌, ◌^◌, String, Bool, true, false, not, ◌&&◌, ◌||◌, List, [], ◌∷◌, map, Option, none, some,
  ltb, leb, ◌==◌, str_eq, if◌then◌else◌, length, sort_by, Result, ok, err, ℤ, pos, negsuc, pos_part,
  leb_ℤ, ltb_ℤ,
}
use drover.Driver.{
  Time, Bytes, JobState, available, Lease, InsertParams, JobRow, Error, not_found,
  invalid_transition, lease_lost, duplicate_job, tx_unsupported, bad_limit, limit_out_of_range,
  statement_failed,
}
use drover.MemDriver.Claim.{is_running}
use drover.MemDriver.Read.{ListJobsParams}
use drover.Sql.{DbJob, Table}
use drover.Sql.Statements.{PgError, unique_active_violation, failure}
use drover.Sql.Statements
use drover.Sql.Inserts.{InsertJobParams}
use drover.Sql.Inserts
use drover.Sql.Reads

pub record Queries (T : Type 0) : Type 0 where
  pub insert_job : InsertJobParams → T → T × Result PgError DbJob
  pub insert_batch : List InsertJobParams → T → T × Result PgError (List DbJob)
  pub fetch_available : Time → String → ℕ → T → T × Result PgError (List DbJob)
  pub fetch_expired : Time → ℕ → T → T × Result PgError (List DbJob)
  pub extend_leases : Time → List (ℕ × ℕ) → T → T × Result PgError (Unit {0})
  pub mark_completed : ℕ → ℕ → T → T × Result PgError ℕ
  pub mark_retryable : Time → Bytes → ℕ → ℕ → T → T × Result PgError ℕ
  pub mark_dead : Bytes → ℕ → ℕ → T → T × Result PgError ℕ
  pub mark_cancelled : Bytes → ℕ → ℕ → T → T × Result PgError ℕ
  pub mark_snoozed : Time → ℕ → ℕ → T → T × Result PgError ℕ
  pub list_jobs : String → String → ℕ → T → Result PgError (List DbJob)
  pub get_job : ℕ → T → Result PgError (Option DbJob)
  pub operator_cancel : ℕ → T → T × Result PgError (Option DbJob)
  pub redrive_dead : ℕ → T → T × Result PgError (Option DbJob)

abbrev pub sent : {T A : Type 0} → T × A → T × Result PgError A
sent out = (out.0, ok out.1)

-- What pgx and Postgres make of the values that a call sends: jsonb's `||` and the text it shows for a value,
-- the instant that a timestamptz keeps, and the interval of make_interval from a duration's seconds.
pub record Wire : Type 0 where
  pub append : Bytes → Bytes → Bytes
  pub jsonb : Bytes → Bytes
  pub timestamptz : Time → Time
  pub interval : Time → Time

abbrev pub sent_params : Wire → InsertJobParams → InsertJobParams
sent_params wire p = record p {
  args = wire.jsonb p.args;
  scheduled_at = elim p.scheduled_at [ none ↦ none | some at ↦ some (wire.timestamptz at) ];
}

-- The statements over the table, with the values that arrive, where the wire does not fail.
abbrev pub table_queries : Wire → Time → (ℕ → Bool) → (List DbJob → List DbJob) → Queries Table
table_queries wire now locked returning = record {
  insert_job = λ p t. Inserts.insert_job now (sent_params wire p) t;
  insert_batch = λ ps t. Inserts.insert_jobs_from_staging now (map (sent_params wire) ps) t;
  fetch_available = λ lease_for queue n t.
      sent (Statements.fetch_available locked returning now (wire.interval lease_for) queue n t);
  fetch_expired = λ lease_for n t.
      sent (Statements.fetch_expired locked returning now (wire.interval lease_for) n t);
  extend_leases =
      λ lease_for held t. (Statements.extend_leases now (wire.interval lease_for) held t, ok tt);
  mark_completed = λ id attempt t. sent (Statements.mark_completed now id attempt t);
  mark_retryable = λ at e id attempt t.
      sent (Statements.mark_retryable wire.append (wire.timestamptz at) e id attempt t);
  mark_dead = λ e id attempt t. sent (Statements.mark_dead wire.append now e id attempt t);
  mark_cancelled =
      λ e id attempt t. sent (Statements.mark_cancelled wire.append now e id attempt t);
  mark_snoozed =
      λ at id attempt t. sent (Statements.mark_snoozed (wire.timestamptz at) id attempt t);
  list_jobs = Reads.list_jobs;
  get_job = λ id t. ok (Reads.get_job id t);
  operator_cancel = λ id t. sent (Statements.operator_cancel now id t);
  redrive_dead = Statements.redrive_dead now;
}

abbrev pub max_int32 : ℕ
max_int32 = 2 ^ 31 - 1

unfoldable pub row_from_db : DbJob → JobRow
row_from_db job = record {
  id = job.id;
  kind = job.kind;
  queue = job.queue;
  args = job.args;
  state = job.state;
  attempt = job.attempt;
  max_attempts = job.max_attempts;
  errors = job.errors;
  scheduled_at = job.scheduled_at;
  leased_until = job.leased_until;
  created_at = job.created_at;
  finalized_at = job.finalized_at;
  unique_key = elim job.unique_key [ none ↦ "" | some key ↦ key ];
}

unfoldable pub insert_params : InsertParams → InsertJobParams
insert_params p = record {
  kind = p.kind;
  queue = p.queue;
  args = p.args;
  scheduled_at = if p.scheduled_at == 0 then none else some p.scheduled_at;
  unique_key = if str_eq p.unique_key "" then none else some p.unique_key;
}

unfoldable pub wrap_insert_err : PgError → Error
wrap_insert_err unique_active_violation = duplicate_job
wrap_insert_err (failure code) = statement_failed code

abbrev pub failed : PgError → Error
failed unique_active_violation = statement_failed 0
failed (failure code) = statement_failed code

unfoldable pub attempt_arg : ℤ → ℕ
attempt_arg n =
    if ltb_ℤ n (pos 0) then 0 else if ltb_ℤ (pos max_int32) n then max_int32 else pos_part n

abbrev pub id_order : JobRow → JobRow → Bool
id_order a b = leb a.id b.id

unfoldable pub sorted_rows : List DbJob → List JobRow
unfolding row_from_db
sorted_rows jobs = sort_by id_order (map row_from_db jobs)
