-- ===== src/MemDriver/Validity.antt =====
-- What holds of every row that memdriver.go stores, after any history of calls.
use drover.Prelude.{
  ℕ, ◌+◌, ◌≡◌, ◌<◌, Bool, true, false, List, [], ◌∷◌, Option, none, some, arith, All,
}
use drover.Driver.{Time, JobState, completed, cancelled, dead, InsertParams, JobRow, Codec}
use drover.MemDriver.Rows.{Store}
use drover.MemDriver.RowLaws.{All-put_row, All-find_row}
use drover.MemDriver.Insert.{job_from_params}
use drover.MemDriver.Claim.{is_running, claim, reclaim}
use drover.MemDriver.Mark.{append_error, finalized, retried, snoozed}
use drover.MemDriver.Operator.{cancel_row, redrive_row}
use drover.MemDriver.History.{
  Call, run, Outcome, finalizes, dies, gives_up, retries_at, snoozes_to, Move, claimed, renewed,
  ended, stopped, redriven,
}
use drover.MemDriver.Ids.{Ids}
use drover.MemDriver.Moves.{KeepsMoves, KeepsInserts, run-keeps}

abbrev pub is_set {ℓ} : {A : Type ℓ} → Option A → Bool
is_set none = false
is_set (some a) = true

abbrev pub is_final : JobState → Bool
is_final completed = true
is_final cancelled = true
is_final dead = true
is_final _ = false

-- A lease is held exactly while running, the finish time is set exactly in a final state, and a
-- running job has used an attempt.
pub record RowOk (r : JobRow) : Type 0 where
  pub leased : is_set r.leased_until ≡ is_running r.state
  pub finished : is_set r.finalized_at ≡ is_final r.state
  pub attempted : is_running r.state ≡ true → 0 < r.attempt

pub record IsValid (s : Store) : Type 0 where
  pub ids : Ids s
  pub rows : All RowOk s.jobs

Outcome-RowOk :
    (codec : Codec) (r x : JobRow)
    → is_running r.state ≡ true
    → Outcome codec r x
    → RowOk r
    → RowOk (record x { leased_until = none })
unfolding finalized retried snoozed append_error
Outcome-RowOk codec r x on (finalizes now detail e) v = ground arith
Outcome-RowOk codec r x on (dies now detail e) v = ground arith
Outcome-RowOk codec r x on (gives_up now detail e) v = ground arith
Outcome-RowOk codec r x on (retries_at at detail e) v = ground arith
Outcome-RowOk codec r x on (snoozes_to at e) v = ground arith

Move-RowOk : (codec : Codec) (c : Call) (r r' : JobRow) → Move codec c r r' → RowOk r → RowOk r'
unfolding claim reclaim cancel_row redrive_row
Move-RowOk codec c r r' (claimed until w e) v = ground arith
Move-RowOk codec c r r' (renewed until on e) v = ground arith
Move-RowOk codec c r r' (ended x on out e) v = ground (arith, Outcome-RowOk codec r x on out v)
Move-RowOk codec c r r' (stopped now off e) v = ground arith
Move-RowOk codec c r r' (redriven now id call d e) v = ground arith

job_from_params-RowOk :
    (id : ℕ) (params : InsertParams) (now : Time) → RowOk (job_from_params id params now)
unfolding job_from_params
job_from_params-RowOk id params now = ground arith

abbrev RowsOk : Store → Type 0
RowsOk s = All RowOk s.jobs

inserts-RowsOk : (codec : Codec) → KeepsInserts codec RowsOk
inserts-RowsOk codec s now params v q free =
    All-put_row RowOk _ s.jobs (job_from_params-RowOk (s.next_id + 1) params now) q

moves-RowsOk : (codec : Codec) (c : Call) → KeepsMoves codec RowsOk c
moves-RowsOk codec c s r r' v q e m =
    All-put_row RowOk r' s.jobs (Move-RowOk codec c r r' m (All-find_row RowOk r'.id r s.jobs e q))
      q

abbrev pub AnyCall : Call → Type 0
AnyCall c = Unit

pub All-AnyCall : (cs : List (Time × Call)) → All (λ c. AnyCall c.1) cs
All-AnyCall [] = tt
All-AnyCall (c ∷ cs) = (tt, All-AnyCall cs)

-- Any history of calls, with any clock readings, takes a valid store to a valid one: no two rows
-- share an id and none is past `next_id`; a row holds a lease exactly when it is running, has a finish
-- time exactly when it is completed, cancelled or dead, and when running has used an attempt.
pub run-IsValid :
    (codec : Codec) (cs : List (Time × Call)) (s : Store) → IsValid s → IsValid (run codec cs s)
run-IsValid codec cs s v =
    let (ids, rows) =
      run-keeps codec RowsOk AnyCall (inserts-RowsOk codec) (λ c _. moves-RowsOk codec c) cs s
        (All-AnyCall cs) (v.ids, v.rows) in
    record { ids = ids; rows = rows }
