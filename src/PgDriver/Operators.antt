-- ===== src/PgDriver/Operators.antt =====
-- OperatorCancel and RedriveDead of pgdriver.go against those of memdriver.go.
use drover.Prelude.{
  ℕ, ◌≡◌, refl, ap, ◌∙◌, Bool, true, false, List, Option, some, arith, Bool-cases, Option-cases,
  inl, inr, ◌⊎◌, Result, ok, err,
}
use drover.Driver.{Time, JobRow, Error, statement_failed, cancelled}
use drover.MemDriver.Rows.{Store}
use drover.MemDriver.Operator.{
  cancellable, is_dead, cancel_row, redrive_row, after_operator_miss, operate_retrying,
}
use drover.MemDriver.Operator
use drover.Sql.{DbJob, Table, find_job}
use drover.Sql.Statements.{
  PgError, unique_active_violation, set_finalized, set_redriven, slot_taken,
}
use drover.Sql.Statements
use drover.Sql.Reads
use drover.PgDriver.{Queries, Wire, table_queries, row_from_db}
use drover.PgDriver.Rows.{store_of}
use drover.PgDriver.Marks.{as_stored}
use drover.PgDriver.Passes.{meant, operate-operate_retrying}
use drover.PgDriver.Calls.{operate}

cancel_same :
    (now : Time) (job : DbJob)
    → row_from_db (set_finalized now cancelled job) ≡ cancel_row now (row_from_db job)
unfolding row_from_db cancel_row
cancel_same now job = refl

redrive_same :
    (now : Time) (job : DbJob)
    → row_from_db (set_redriven now job) ≡ redrive_row now (row_from_db job)
unfolding row_from_db redrive_row
redrive_same now job = refl

-- The unique index refused to take a dead job back, and the call failed with the table as it was.
abbrev pub RefusedRedrive : Time → ℕ → Table → Table × Result Error JobRow → Type 0
RefusedRedrive now id t out =
    (job : DbJob) × (find_job id t.rows ≡ some job)
    × (is_dead job.state ≡ true)
    × (slot_taken (set_redriven now job) t.rows ≡ true)
    × (out ≡ (t, err (statement_failed 0)))

-- A redriven row enters the unique index again.
abbrev redrive_taken : Time → DbJob → List DbJob → Bool
redrive_taken now job rows = slot_taken (set_redriven now job) rows

abbrev never_taken : DbJob → List DbJob → Bool
never_taken job rows = false

module _ (wire : Wire) (now : Time) (locked : ℕ → Bool) (returning : List DbJob → List DbJob) where
  abbrev pub queries : Queries Table
  queries = table_queries wire now locked returning

  reads_row : (id : ℕ) (t : Table) → queries.get_job id t ≡ ok (find_job id t.rows)
  unfolding Reads.get_job
  reads_row id t = refl

  cancel_meant :
      (id : ℕ) (t : Table)
      → queries.operator_cancel id t
        ≡ meant queries reads_row cancellable
            (set_finalized now cancelled)
            (cancel_row now)
            (cancel_same now)
            never_taken
            id
            t
  unfolding Statements.operator_cancel
  cancel_meant id t = elim (Option-cases (find_job id t.rows)) [
    | inl e ↦ rw (e, Statements.operator_cancel) (rw (e, meant) refl)
    | inr (job, e) ↦ elim (Bool-cases (cancellable job.state)) [
      | inl on ↦ rw (e, Statements.operator_cancel) (rw (e, meant) (rw on refl))
      | inr off ↦ rw (e, Statements.operator_cancel) (rw (e, meant) (rw off refl))
    ]
  ]

  redrive_meant :
      (id : ℕ) (t : Table)
      → queries.redrive_dead id t
        ≡ meant queries reads_row is_dead
            (set_redriven now)
            (redrive_row now)
            (redrive_same now)
            (redrive_taken now)
            id
            t
  unfolding Statements.redrive_dead
  redrive_meant id t = refl

module _ (wire : Wire) (now : Time) (locked : ℕ → Bool) (returning : List DbJob → List DbJob)
    (between between' : Table → Table) (mem_between mem_between' : Store → Store) (id : ℕ)
    (t : Table) where
  -- What the operator calls of the two drivers have in common from a table.
  abbrev pub CancelAgrees : Type 0
  CancelAgrees =
      as_stored (
        operate (queries wire now locked returning) cancellable
          (queries wire now locked returning).operator_cancel between between' (λ u. u) id t)
      ≡ Operator.operator_cancel now mem_between mem_between' id (store_of t)

  abbrev pub RedriveAgrees : Type 0
  RedriveAgrees =
      let out =
        operate (queries wire now locked returning) is_dead
          (queries wire now locked returning).redrive_dead between between' (λ u. u) id t in
      (as_stored out ≡ Operator.redrive_dead now mem_between mem_between' id (store_of t))
      ⊎ RefusedRedrive now id t out
      ⊎ RefusedRedrive now id (between' (between t)) out

-- Whatever other calls do between the passes of an operator call on a stored job, if it is the same in
-- both stores: OperatorCancel of the Postgres driver leaves and returns what memdriver's does, and
-- RedriveDead too, unless another job holds the unique slot of the dead job in one of the two passes,
-- where it fails and leaves the table of that pass.
pub operators-agree :
    (wire : Wire) (now : Time) (locked : ℕ → Bool) (returning : List DbJob → List DbJob)
    (between between' : Table → Table) (mem_between mem_between' : Store → Store) (id : ℕ)
    (t : Table) (job : DbJob)
    → ((u : Table) → store_of (between u) ≡ mem_between (store_of u))
    → ((u : Table) → store_of (between' u) ≡ mem_between' (store_of u))
    → find_job id t.rows ≡ some job
    → CancelAgrees wire now locked returning between between' mem_between mem_between' id t
      × RedriveAgrees wire now locked returning between between' mem_between mem_between' id t
unfolding Operator.operator_cancel Operator.redrive_dead Statements.redrive_dead
operators-agree wire now locked returning between between' mem_between mem_between' id t job follows
      follows' e =
    let q = queries wire now locked returning in
    let reads = reads_row wire now locked returning in
    let cancelling =
      operate-operate_retrying q reads cancellable (set_finalized now cancelled) (cancel_row now)
        (cancel_same now) never_taken between between' mem_between mem_between' follows follows' id
        t job e in
    let redriving =
      operate-operate_retrying q reads is_dead (set_redriven now) (redrive_row now)
        (redrive_same now) (redrive_taken now) between between' mem_between mem_between' follows
        follows' id t job e in
    (
      elim cancelling [
        | inl same ↦
            ap
              (λ (s : ℕ → Table → Table × Result PgError (Option DbJob)).
                as_stored (operate q cancellable s between between' (λ u. u) id t))
              (λ i id' t'. cancel_meant wire now locked returning id' t' i)
            ∙ same
        | inr (inl (row, at, on, used, out)) ↦ absurd (ground arith)
        | inr (inr (row, at, on, used, out)) ↦ absurd (ground arith)
      ],
      redriving,
    )
