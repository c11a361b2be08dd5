-- ===== src/PgDriver/Leases.antt =====
-- ExtendLeases of pgdriver.go against memdriver.go's.
use drover.Prelude.{
  ℕ, ◌≡◌, refl, ap, ◌∙◌, ◌≤◌, ◌+◌, Bool, false, List, [], ◌∷◌, map, arith, Bool-cases, Option-cases,
  inl, inr, ok, pos, All, length, ◌==◌,
}
use mathlib.Core.Option
use drover.Driver.{Time, JobRow, Lease}
use drover.MemDriver.Rows.{Store}
use drover.MemDriver.Claim.{is_running, reclaim, extend_one, extend_all}
use drover.MemDriver.Claim
use drover.Sql.{DbJob, Table, find_job}
use drover.Sql.Statements.{set_leased, extend_held}
use drover.Sql.Statements
use drover.PgDriver.{Wire, table_queries, row_from_db, max_int32, attempt_arg}
use drover.PgDriver.Rows.{store_of, find_row-find_job, map-put_job}
use drover.PgDriver.Marks.{attempt_arg-fits, as_stored}
use drover.PgDriver.Calls

extend_held-extend_one :
    (until : Time) (held : Lease) (jobs : List DbJob)
    → map row_from_db (extend_held until (held.id, held.attempt) jobs)
      ≡ extend_one until held (map row_from_db jobs)
unfolding extend_held extend_one reclaim row_from_db
extend_held-extend_one until held jobs = elim (Option-cases (find_job held.id jobs)) [
  | inl e ↦
      let e' = find_row-find_job held.id jobs ∙ ap (Option.map row_from_db) e in
      rw (e, extend_held) (rw (e', extend_one) refl)
  | inr (job, e) ↦
      let e' = find_row-find_job held.id jobs ∙ ap (Option.map row_from_db) e in
      elim (Bool-cases (job.attempt == held.attempt)) [
        | inr other ↦ elim (Bool-cases (is_running job.state)) [
          | inl on ↦ rw (e, extend_held) (rw (e', extend_one) (rw (other, on) refl))
          | inr off ↦ rw (e, extend_held) (rw (e', extend_one) (rw (other, off) refl))
        ]
        | inl same ↦ elim (Bool-cases (is_running job.state)) [
          | inl on ↦
              rw (e, extend_held)
                (rw (e', extend_one) (rw (same, on) (map-put_job (set_leased until job) jobs)))
          | inr off ↦ rw (e, extend_held) (rw (e', extend_one) (rw (same, off) refl))
        ]
      ]
]

abbrev with_rows : Table → List DbJob → Table
with_rows t rows = record t { rows = rows }

abbrev extended : ℕ → List JobRow → Store
extended next_id jobs = record { next_id = next_id; jobs = jobs }

extend_leases-extend_all :
    (now lease_for : Time) (leases : List Lease) (t : Table)
    → All (λ l. l.attempt ≤ max_int32) leases
    → store_of (
        Statements.extend_leases now lease_for
          (map (λ l. (l.id, attempt_arg (pos l.attempt))) leases)
          t)
      ≡ Claim.extend_leases now leases lease_for (store_of t)
unfolding Statements.extend_leases Claim.extend_leases extend_all store_of
extend_leases-extend_all now lease_for [] t fits = refl
extend_leases-extend_all now lease_for (l ∷ leases) t fits =
    rw (attempt_arg-fits l.attempt fits.0) (
      extend_leases-extend_all now lease_for leases
        (with_rows t (extend_held (now + lease_for) (l.id, l.attempt) t.rows)) fits.1
      ∙ ap (λ (jobs : List JobRow). extended t.next_id (extend_all (now + lease_for) leases jobs))
          (extend_held-extend_one (now + lease_for) l t.rows))

-- ExtendLeases of the Postgres driver, at attempts that the column holds, leaves the rows that memdriver's
-- leaves from the same rows for the interval that Postgres makes of the duration, and reports no error.
pub extend_leases-agree :
    (wire : Wire) (now : Time) (locked : ℕ → Bool) (returning : List DbJob → List DbJob)
    (leases : List Lease) (lease_for : Time) (t : Table)
    → All (λ l. l.attempt ≤ max_int32) leases
    → as_stored (Calls.extend_leases (table_queries wire now locked returning) leases lease_for t)
      ≡ (Claim.extend_leases now leases (wire.interval lease_for) (store_of t), ok tt)
unfolding Calls.extend_leases
extend_leases-agree wire now locked returning [] lease_for t fits =
    unfold Statements.extend_leases Claim.extend_leases extend_all store_of in refl
extend_leases-agree wire now locked returning (l ∷ leases) lease_for t fits =
    let more : (length (l ∷ leases) == 0) ≡ false = ground arith in
    rw more (
      ap (λ s. (s, ok tt))
        (extend_leases-extend_all now (wire.interval lease_for) (l ∷ leases) t fits))
