-- ===== src/PgDriver/Calls.antt =====
-- The calls of internal/pgdriver/pgdriver.go over any queries.
use drover.Prelude.{
  ℕ, String, Bool, not, ◌||◌, List, [], map, Option, none, some, ◌==◌, if◌then◌else◌, length,
  Result, ok, err, ℤ, pos, pos_part, leb_ℤ, ltb_ℤ,
}
use drover.Driver.{
  Time, Bytes, JobState, Lease, InsertParams, JobRow, Error, not_found, invalid_transition,
  lease_lost, tx_unsupported, bad_limit, limit_out_of_range,
}
use drover.MemDriver.Claim.{is_running}
use drover.MemDriver.Read.{ListJobsParams}
use drover.Sql.{DbJob}
use drover.Sql.Statements.{PgError}
use drover.PgDriver.{
  Queries, max_int32, row_from_db, insert_params, wrap_insert_err, failed, attempt_arg, sorted_rows,
}

-- The transaction that a caller passes to the Tx calls.
pub data TxArg : Type 0 where
  pgx_tx other_tx : TxArg

module _ {T : Type 0} (q : Queries T) where
  unfoldable pub insert : InsertParams → T → T × Result Error JobRow
  unfolding insert_params wrap_insert_err row_from_db
  insert p t =
      let out = q.insert_job (insert_params p) t in
      (out.0, elim out.1 [ err e ↦ err (wrap_insert_err e) | ok job ↦ ok (row_from_db job) ])

  unfoldable pub insert_tx : TxArg → InsertParams → T → T × Result Error JobRow
  unfolding insert
  insert_tx other_tx p t = (t, err tx_unsupported)
  insert_tx pgx_tx p t = insert p t

  unfoldable pub insert_staged : List InsertParams → T → T × Result Error (List JobRow)
  unfolding insert_params wrap_insert_err row_from_db
  insert_staged batch t =
      let out = q.insert_batch (map insert_params batch) t in
      (out.0, elim out.1 [ err e ↦ err (wrap_insert_err e) | ok jobs ↦ ok (map row_from_db jobs) ])

  unfoldable pub insert_many : List InsertParams → T → T × Result Error (List JobRow)
  unfolding insert_staged
  insert_many batch t = if length batch == 0 then (t, ok []) else insert_staged batch t

  unfoldable pub insert_many_tx : TxArg → List InsertParams → T → T × Result Error (List JobRow)
  unfolding insert_staged
  insert_many_tx other_tx batch t = (t, err tx_unsupported)
  insert_many_tx pgx_tx batch t = if length batch == 0 then (t, ok []) else insert_staged batch t

  abbrev claimed : T × Result PgError (List DbJob) → T × Result Error (List JobRow)
  claimed out = (out.0, elim out.1 [ err e ↦ err (failed e) | ok jobs ↦ ok (sorted_rows jobs) ])

  unfoldable pub fetch_available : String → Time → ℤ → T → T × Result Error (List JobRow)
  unfolding sorted_rows
  fetch_available queue lease_for limit t =
      if ltb_ℤ limit (pos 0) || ltb_ℤ (pos max_int32) limit
      then (t, err limit_out_of_range)
      else claimed (q.fetch_available lease_for queue (pos_part limit) t)

  unfoldable pub fetch_expired : Time → ℤ → T → T × Result Error (List JobRow)
  unfolding sorted_rows
  fetch_expired lease_for limit t =
      if ltb_ℤ limit (pos 0) || ltb_ℤ (pos max_int32) limit
      then (t, err limit_out_of_range)
      else claimed (q.fetch_expired lease_for (pos_part limit) t)

  unfoldable pub extend_leases : List Lease → Time → T → T × Result Error (Unit {0})
  unfolding attempt_arg
  extend_leases leases lease_for t =
      let held = map (λ l. (l.id, attempt_arg (pos l.attempt))) leases in
      let out = q.extend_leases lease_for held t in
      if length leases == 0
      then (t, ok tt)
      else (out.0, elim out.1 [ err e ↦ err (failed e) | ok u ↦ ok u ])

  -- Why a guarded UPDATE matched no row.
  unfoldable pub finalize_failure : Lease → T → Error
  finalize_failure lease t = elim (q.get_job lease.id t) [
    | err e ↦ failed e
    | ok none ↦ not_found lease.id
    | ok (some job) ↦
        if not (is_running job.state)
        then invalid_transition lease.id job.state
        else lease_lost lease.id job.attempt lease.attempt
  ]

  unfoldable pub explain : (T → T) → Lease → T × Result PgError ℕ → T × Result Error (Unit {0})
  unfolding finalize_failure
  explain between lease out = elim out.1 [
    | err e ↦ (out.0, err (failed e))
    | ok affected ↦
        if affected == 0
        then (between out.0, err (finalize_failure lease (between out.0)))
        else (out.0, ok tt)
  ]

  module _ (between : T → T) where
    unfoldable pub mark_completed : Lease → T → T × Result Error (Unit {0})
    unfolding explain attempt_arg
    mark_completed lease t =
        explain between lease (q.mark_completed lease.id (attempt_arg (pos lease.attempt)) t)

    unfoldable pub mark_retryable : Lease → Time → Bytes → T → T × Result Error (Unit {0})
    unfolding explain attempt_arg
    mark_retryable lease at detail t =
        explain between lease
          (q.mark_retryable at detail lease.id (attempt_arg (pos lease.attempt)) t)

    unfoldable pub mark_dead : Lease → Bytes → T → T × Result Error (Unit {0})
    unfolding explain attempt_arg
    mark_dead lease detail t =
        explain between lease (q.mark_dead detail lease.id (attempt_arg (pos lease.attempt)) t)

    unfoldable pub mark_cancelled : Lease → Bytes → T → T × Result Error (Unit {0})
    unfolding explain attempt_arg
    mark_cancelled lease detail t =
        explain between lease (q.mark_cancelled detail lease.id (attempt_arg (pos lease.attempt)) t)

    unfoldable pub mark_snoozed : Lease → Time → T → T × Result Error (Unit {0})
    unfolding explain attempt_arg
    mark_snoozed lease at t =
        explain between lease (q.mark_snoozed at lease.id (attempt_arg (pos lease.attempt)) t)

  unfoldable pub list_jobs : ListJobsParams → T → Result Error (List JobRow)
  unfolding row_from_db
  list_jobs p t =
      if leb_ℤ p.limit (pos 0)
      then err bad_limit
      else if ltb_ℤ (pos max_int32) p.limit
      then err limit_out_of_range
      else elim (q.list_jobs p.queue p.state (pos_part p.limit) t) [
        | err e ↦ err (failed e)
        | ok jobs ↦ ok (map row_from_db jobs)
      ]

  unfoldable pub get_job : ℕ → T → Result Error JobRow
  unfolding row_from_db
  get_job id t = elim (q.get_job id t) [
    | err e ↦ err (failed e)
    | ok none ↦ err (not_found id)
    | ok (some job) ↦ ok (row_from_db job)
  ]

  -- A pass with allowRetry false, on what the statement answered.
  unfoldable pub after_last_pass :
      (T → T) → ℕ → T × Result PgError (Option DbJob) → T × Result Error JobRow
  unfolding row_from_db
  after_last_pass between id out = elim out.1 [
    | err e ↦ (out.0, err (failed e))
    | ok (some job) ↦ (out.0, ok (row_from_db job))
    | ok none ↦ (
      between out.0,
      elim (q.get_job id (between out.0)) [
        | err e ↦ err (failed e)
        | ok none ↦ err (not_found id)
        | ok (some job) ↦ err (invalid_transition id job.state)
      ],
    )
  ]

  -- The pass with allowRetry true: after a miss, a row that is eligible on the re-read is tried once more.
  unfoldable pub operate :
      (JobState → Bool)
      → (ℕ → T → T × Result PgError (Option DbJob))
      → (T → T)
      → (T → T)
      → (T → T)
      → ℕ
      → T
      → T × Result Error JobRow
  unfolding after_last_pass
  operate eligible statement between between' between'' id t =
      let out = statement id t in
      let reread = between out.0 in
      let again = after_last_pass between'' id (statement id (between' reread)) in
      elim out.1 [
        | err e ↦ (out.0, err (failed e))
        | ok (some job) ↦ (out.0, ok (row_from_db job))
        | ok none ↦ elim (q.get_job id reread) [
          | err e ↦ (reread, err (failed e))
          | ok none ↦ (reread, err (not_found id))
          | ok (some job) ↦
              if eligible job.state then again else (reread, err (invalid_transition id job.state))
        ]
      ]
