-- ===== src/Sql/Inserts.antt =====
-- The statements that insert rows: InsertJob and InsertJobsFromStaging.
use drover.Prelude.{
  ℕ, ◌+◌, String, List, [], ◌∷◌, Option, none, some, ltb, if◌then◌else◌, Result, ok, err,
}
use drover.Driver.{Time, Bytes, available, scheduled, empty_array}
use drover.Sql.{DbJob, Table, put_job}
use drover.Sql.Statements.{PgError, unique_active_violation, slot_taken}

-- The parameters of InsertJob as they reach Postgres; a staged row has the same columns.
pub record InsertJobParams : Type 0 where
  pub kind : String
  pub queue : String
  pub args : Bytes
  pub scheduled_at : Option Time
  pub unique_key : Option String

-- The row, with the defaults of the columns that the statement leaves out.
unfoldable pub inserted : Time → ℕ → InsertJobParams → DbJob
inserted now id p =
    let due : Time = elim p.scheduled_at [ none ↦ now | some at ↦ at ] in
    record {
      id = id;
      kind = p.kind;
      queue = p.queue;
      args = p.args;
      state = if ltb now due then scheduled else available;
      attempt = 0;
      max_attempts = 25;
      errors = empty_array;
      scheduled_at = due;
      leased_until = none;
      created_at = now;
      finalized_at = none;
      unique_key = p.unique_key;
    }

-- The identity column gives out an id also for a row that the index refuses.
unfoldable pub insert_job : Time → InsertJobParams → Table → Table × Result PgError DbJob
unfolding inserted slot_taken
insert_job now p t =
    let job = inserted now (t.next_id + 1) p in
    if slot_taken job t.rows
    then (record t { next_id = t.next_id + 1 }, err unique_active_violation)
    else (record { next_id = t.next_id + 1; rows = put_job job t.rows }, ok job)

-- The rows of the staging table, in order, up to the first that is refused.
unfoldable pub insert_rows :
    Time → List InsertJobParams → Table → Table × Result PgError (List DbJob)
unfolding insert_job
insert_rows now [] t = (t, ok [])
insert_rows now (p ∷ ps) t =
    let first = insert_job now p t in
    let rest = insert_rows now ps first.0 in
    elim first.1 [
      | err e ↦ (first.0, err e)
      | ok job ↦ elim rest.1 [ err e ↦ (rest.0, err e) | ok jobs ↦ (rest.0, ok (job ∷ jobs)) ]
    ]

-- A statement that fails takes its rows back, but not the ids that the sequence gave out.
unfoldable pub insert_jobs_from_staging :
    Time → List InsertJobParams → Table → Table × Result PgError (List DbJob)
unfolding insert_rows
insert_jobs_from_staging now ps t =
    let out = insert_rows now ps t in
    elim out.1 [ err e ↦ (record t { next_id = out.0.next_id }, err e) | ok jobs ↦ out ]
