-- ===== src/PgDriver/Passes.antt =====
-- The two passes of an operator call of pgdriver.go against memdriver.go's.
use drover.Prelude.{
  ℕ, ◌≡◌, refl, ap, ◌∙◌, Bool, true, false, List, Option, none, some, Bool-cases, Option-cases, inl,
  inr, ◌⊎◌, Result, ok, err, not, if◌then◌else◌,
}
use mathlib.Core.Option
use drover.Driver.{JobState, JobRow, Error, not_found, invalid_transition, statement_failed}
use drover.MemDriver.Rows.{Store, find_row, put_row}
use drover.MemDriver.Operator.{
  cancellable, is_dead, cancel_row, redrive_row, after_operator_miss, operate_retrying,
}
use drover.MemDriver.Operator
use drover.Sql.{DbJob, Table, find_job, put_job}
use drover.Sql.Statements.{PgError, unique_active_violation}
use drover.PgDriver.{Queries, row_from_db, failed}
use drover.PgDriver.Rows.{store_of, find_row-find_job, map-put_job}
use drover.PgDriver.Marks.{as_stored}
use drover.PgDriver.Calls.{after_last_pass, operate}

abbrev pub written : (DbJob → DbJob) → DbJob → Table → Table
written change job t = record t { rows = put_job (change job) t.rows }

abbrev stored : ℕ → List JobRow → Store
stored next_id jobs = record { next_id = next_id; jobs = jobs }

module _ (q : Queries Table)
    (reads : (id : ℕ) (t : Table) → q.get_job id t ≡ ok (find_job id t.rows))
    (eligible : JobState → Bool) (change : DbJob → DbJob) (mem_change : JobRow → JobRow)
    (same : (job : DbJob) → row_from_db (change job) ≡ mem_change (row_from_db job))
    (taken : DbJob → List DbJob → Bool) where
  -- What the statement does to the row of an id: nothing to a row that is not eligible, and the unique
  -- index may refuse the change.
  abbrev pub meant : ℕ → Table → Table × Result PgError (Option DbJob)
  meant id t = elim (find_job id t.rows) [
    | none ↦ (t, ok none)
    | some job ↦
        if not (eligible job.state)
        then (t, ok none)
        else if taken job t.rows
        then (t, err unique_active_violation)
        else (written change job t, ok (some (change job)))
  ]

  -- The index refused the change of an eligible row, and the call failed with the table as it was.
  abbrev pub Refused : ℕ → Table → Table × Result Error JobRow → Type 0
  Refused id t out =
      (job : DbJob) × (find_job id t.rows ≡ some job)
      × (eligible job.state ≡ true)
      × (taken job t.rows ≡ true)
      × (out ≡ (t, err (statement_failed 0)))

  meant_missing : (id : ℕ) (t : Table) → find_job id t.rows ≡ none → meant id t ≡ (t, ok none)
  meant_missing id t e = rw (e, meant) refl

  meant_ineligible :
      (id : ℕ) (t : Table) (job : DbJob)
      → find_job id t.rows ≡ some job
      → eligible job.state ≡ false
      → meant id t ≡ (t, ok none)
  meant_ineligible id t job e off = rw (e, meant) (rw off refl)

  meant-taken :
      (id : ℕ) (t : Table) (job : DbJob)
      → find_job id t.rows ≡ some job
      → eligible job.state ≡ true
      → taken job t.rows ≡ true
      → meant id t ≡ (t, err unique_active_violation)
  meant-taken id t job e on used = rw (e, meant) (rw (on, used) refl)

  meant-written :
      (id : ℕ) (t : Table) (job : DbJob)
      → find_job id t.rows ≡ some job
      → eligible job.state ≡ true
      → taken job t.rows ≡ false
      → meant id t ≡ (written change job t, ok (some (change job)))
  meant-written id t job e on free = rw (e, meant) (rw (on, free) refl)

  abbrev as_row : JobRow → Store → Store × Result Error JobRow
  as_row row s = (record s { jobs = put_row row s.jobs }, ok row)

  written-as_row :
      (t : Table) (job : DbJob)
      → as_stored (written change job t, ok (row_from_db (change job)))
        ≡ as_row (mem_change (row_from_db job)) (store_of t)
  unfolding store_of
  written-as_row t job =
      ap (λ (rows : List JobRow). (stored t.next_id rows, ok (row_from_db (change job))))
        (map-put_job (change job) t.rows)
      ∙ ap (λ row. as_row row (store_of t)) (same job)

  -- The row that memdriver finds.
  found :
      (id : ℕ) (t : Table) (job : DbJob)
      → find_job id t.rows ≡ some job
      → find_row id (store_of t).jobs ≡ some (row_from_db job)
  unfolding store_of
  found id t job e = find_row-find_job id t.rows ∙ ap (Option.map row_from_db) e

  not_found_either :
      (id : ℕ) (t : Table) → find_job id t.rows ≡ none → find_row id (store_of t).jobs ≡ none
  unfolding store_of
  not_found_either id t e = find_row-find_job id t.rows ∙ ap (Option.map row_from_db) e

  last_pass-operate :
      (id : ℕ) (t : Table)
      → let out = after_last_pass q (λ u. u) id (meant id t) in
        (as_stored out ≡ Operator.operate eligible mem_change id (store_of t)) ⊎ Refused id t out
  unfolding after_last_pass Operator.operate row_from_db
  last_pass-operate id t =
      let last = after_last_pass q (λ (u : Table). u) id in
      elim (Option-cases (find_job id t.rows)) [
        | inl e ↦ inl (
            ap (λ out. as_stored (last out)) (meant_missing id t e)
            ∙ rw (not_found_either id t e, Operator.operate) (rw (reads id t ∙ ap ok e) refl))
        | inr (job, e) ↦ elim (Bool-cases (eligible job.state)) [
          | inr off ↦ inl (
              ap (λ out. as_stored (last out)) (meant_ineligible id t job e off)
              ∙ rw (found id t job e, Operator.operate) (rw (reads id t ∙ ap ok e, off) refl))
          | inl on ↦ elim (Bool-cases (taken job t.rows)) [
            | inl used ↦ inr (job, e, on, used, ap last (meant-taken id t job e on used))
            | inr free ↦ inl (
                ap (λ out. as_stored (last out)) (meant-written id t job e on free)
                ∙ written-as_row t job
                ∙ rw (found id t job e, Operator.operate) (rw on refl))
          ]
        ]
      ]

  -- The first pass, on what the statement answered.
  abbrev two_passes :
      (Table → Table)
      → (Table → Table)
      → ℕ
      → Table × Result PgError (Option DbJob)
      → Table × Result Error JobRow
  two_passes between between' id out =
      let reread = between out.0 in
      let again = after_last_pass q (λ u. u) id (meant id (between' reread)) in
      elim out.1 [
        | err e ↦ (out.0, err (failed e))
        | ok (some job) ↦ (out.0, ok (row_from_db job))
        | ok none ↦ elim (q.get_job id reread) [
          | err e ↦ (reread, err (failed e))
          | ok none ↦ (reread, err (not_found id))
          | ok (some job) ↦
              if eligible job.state then again else (reread, err (invalid_transition id job.state))
        ]
      ]

  -- After a miss, the re-read and the retry of both drivers.
  miss-after_operator_miss :
      (between' : Table → Table) (mem_between' : Store → Store)
      → ((t : Table) → store_of (between' t) ≡ mem_between' (store_of t))
      → (id : ℕ) (t : Table)
      → let out = two_passes (λ u. u) between' id (t, ok none) in
        (as_stored out
          ≡ after_operator_miss eligible
              (λ s. Operator.operate eligible mem_change id (mem_between' s))
              id
              (store_of t))
        ⊎ Refused id (between' t) out
  unfolding after_operator_miss row_from_db
  miss-after_operator_miss between' mem_between' follows' id t =
      elim (Option-cases (find_job id t.rows)) [
        | inl e ↦ inl (
            rw (reads id t ∙ ap ok e, two_passes)
              (rw (not_found_either id t e, after_operator_miss) refl))
        | inr (job, e) ↦ elim (Bool-cases (eligible job.state)) [
          | inr off ↦ inl (
              rw (reads id t ∙ ap ok e, two_passes)
                (rw (found id t job e, after_operator_miss) (rw off refl)))
          | inl on ↦ elim (last_pass-operate id (between' t)) [
            | inl e' ↦ inl (
                rw (reads id t ∙ ap ok e, two_passes)
                  (rw (found id t job e, after_operator_miss)
                    (rw on (e' ∙ ap (Operator.operate eligible mem_change id) (follows' t)))))
            | inr (row, at, eligible', used, e') ↦
                inr (row, at, eligible', used, rw (reads id t ∙ ap ok e, two_passes) (rw on e'))
          ]
        ]
      ]

  module _ (between between' : Table → Table) (mem_between mem_between' : Store → Store)
      (follows : (t : Table) → store_of (between t) ≡ mem_between (store_of t))
      (follows' : (t : Table) → store_of (between' t) ≡ mem_between' (store_of t)) where
    -- The call's two passes: it ended as memdriver's, or the index refused it in one of them.
    pub operate-operate_retrying :
        (id : ℕ) (t : Table) (job : DbJob)
        → find_job id t.rows ≡ some job
        → let out = operate q eligible meant between between' (λ u. u) id t in
          (as_stored out
            ≡ operate_retrying eligible mem_change mem_between mem_between' id (store_of t))
          ⊎ Refused id t out
          ⊎ Refused id (between' (between t)) out
    unfolding operate operate_retrying row_from_db
    operate-operate_retrying id t job e = elim (Bool-cases (eligible job.state)) [
      | inl on ↦ elim (Bool-cases (taken job t.rows)) [
        | inl used ↦ inr (
            inl (
              job,
              e,
              on,
              used,
              ap (two_passes between between' id) (meant-taken id t job e on used),
            ))
        | inr free ↦ inl (
            ap (λ out. as_stored (two_passes between between' id out))
              (meant-written id t job e on free)
            ∙ written-as_row t job
            ∙ rw (found id t job e, operate_retrying) (rw on refl))
      ]
      | inr off ↦
          let missed = ap (two_passes between between' id) (meant_ineligible id t job e off) in
          elim (miss-after_operator_miss between' mem_between' follows' id (between t)) [
            | inl m ↦ inl (
                ap (λ out. as_stored out) missed
                ∙ m
                ∙ ap
                    (after_operator_miss eligible
                      (λ s. Operator.operate eligible mem_change id (mem_between' s)) id)
                    (follows t)
                ∙ rw (found id t job e, operate_retrying) (rw off refl))
            | inr (row, at, eligible', used, m) ↦ inr (inr (row, at, eligible', used, missed ∙ m))
          ]
    ]
