-- ===== src/MemDriver/Lasting.antt =====
-- What lasts in memdriver.go: jobs as they were created, and jobs that have settled.
use drover.Prelude.{◌+◌, ◌≡◌, ◌≤◌, Bool, true, false, List, some, arith, ◌==◌, Bool-cases, inl, inr}
use drover.Driver.{Time, JobState, completed, cancelled, JobRow, Codec}
use drover.MemDriver.Rows.{Store, find_row}
use drover.MemDriver.RowLaws.{find_row-put_row, All-find_row}
use drover.MemDriver.Insert.{job_from_params}
use drover.MemDriver.Claim.{claim, reclaim}
use drover.MemDriver.Mark.{append_error, finalized, retried, snoozed}
use drover.MemDriver.Operator.{cancel_row, redrive_row}
use drover.MemDriver.History.{
  Call, run, Outcome, finalizes, dies, gives_up, retries_at, snoozes_to, Move, claimed, renewed,
  ended, stopped, redriven,
}
use drover.MemDriver.Ids.{Ids}
use drover.MemDriver.Moves.{KeepsMoves, KeepsInserts, run-keeps}
use drover.MemDriver.Validity.{AnyCall, All-AnyCall}

abbrev pub is_settled : JobState → Bool
is_settled completed = true
is_settled cancelled = true
is_settled _ = false

Move-unsettled :
    (codec : Codec) (c : Call) (r r' : JobRow) → Move codec c r r' → is_settled r.state ≡ false
Move-unsettled codec c r r' (claimed until w e) = ground arith
Move-unsettled codec c r r' (renewed until on e) = ground arith
Move-unsettled codec c r r' (ended x on out e) = ground arith
Move-unsettled codec c r r' (stopped now off e) = ground arith
Move-unsettled codec c r r' (redriven now id call d e) = ground arith

-- What the job was created with.
pub record SameJob (r r' : JobRow) : Type 0 where
  pub id : r'.id ≡ r.id
  pub kind : r'.kind ≡ r.kind
  pub queue : r'.queue ≡ r.queue
  pub args : r'.args ≡ r.args
  pub max_attempts : r'.max_attempts ≡ r.max_attempts
  pub created_at : r'.created_at ≡ r.created_at
  pub unique_key : r'.unique_key ≡ r.unique_key

Outcome-SameJob : (codec : Codec) (r x : JobRow) → Outcome codec r x → SameJob r x
unfolding finalized retried snoozed append_error
Outcome-SameJob codec r x (finalizes now detail e) = ground arith
Outcome-SameJob codec r x (dies now detail e) = ground arith
Outcome-SameJob codec r x (gives_up now detail e) = ground arith
Outcome-SameJob codec r x (retries_at at detail e) = ground arith
Outcome-SameJob codec r x (snoozes_to at e) = ground arith

Move-SameJob : (codec : Codec) (c : Call) (r r' : JobRow) → Move codec c r r' → SameJob r r'
unfolding claim reclaim cancel_row redrive_row
Move-SameJob codec c r r' (claimed until w e) = ground arith
Move-SameJob codec c r r' (renewed until on e) = ground arith
Move-SameJob codec c r r' (ended x on out e) = ground (arith, Outcome-SameJob codec r x out)
Move-SameJob codec c r r' (stopped now off e) = ground arith
Move-SameJob codec c r r' (redriven now id call d e) = ground arith

module _ (codec : Codec) (r : JobRow) where
  abbrev Stays : Store → Type 0
  Stays s = find_row r.id s.jobs ≡ some r

  inserts-Stays : KeepsInserts codec Stays
  unfolding job_from_params
  inserts-Stays s now params v q free =
      let old : r.id ≤ s.next_id = All-find_row (λ x. x.id ≤ s.next_id) r.id r s.jobs q v.bounded in
      ground (arith, find_row-put_row r.id (job_from_params (s.next_id + 1) params now) s.jobs)

  moves-Stays : is_settled r.state ≡ true → (c : Call) → KeepsMoves codec Stays c
  moves-Stays settled c s o r' v q e m =
      ground (arith, find_row-put_row r.id r' s.jobs, Move-unsettled codec c o r' m)

  abbrev Survives : Store → Type 0
  Survives s = (r' : JobRow) × (find_row r.id s.jobs ≡ some r') × SameJob r r'

  inserts-Survives : KeepsInserts codec Survives
  unfolding job_from_params
  inserts-Survives s now params v (r', e, same) free =
      let old : r'.id ≤ s.next_id =
        All-find_row (λ x. x.id ≤ s.next_id) r.id r' s.jobs e v.bounded in
      (
        r',
        ground (
          arith,
          find_row-put_row r.id (job_from_params (s.next_id + 1) params now) s.jobs,
          same,
        ),
        same,
      )

  moves-Survives : (c : Call) → KeepsMoves codec Survives c
  moves-Survives c s o o' v (r', e, same) here m = elim (Bool-cases (o'.id == r.id)) [
    | inl hit ↦ (
      o',
      ground (arith, find_row-put_row r.id o' s.jobs),
      ground (arith, Move-SameJob codec c o o' m),
    )
    | inr miss ↦ (r', ground (arith, find_row-put_row r.id o' s.jobs), same)
  ]

-- No history of calls changes anything of a completed or cancelled job.
pub settled_stays :
    (codec : Codec) (r : JobRow) (cs : List (Time × Call)) (s : Store)
    → Ids s
    → find_row r.id s.jobs ≡ some r
    → is_settled r.state ≡ true
    → find_row r.id (run codec cs s).jobs ≡ some r
settled_stays codec r cs s v e settled =
    (run-keeps codec (Stays codec r) AnyCall (inserts-Stays codec r)
      (λ c _. moves-Stays codec r settled c) cs s (All-AnyCall cs) (v, e)).1

-- No history of calls loses a job, or changes its id, kind, queue, arguments, attempt ceiling, creation
-- time or unique key.
pub jobs_survive :
    (codec : Codec) (r : JobRow) (cs : List (Time × Call)) (s : Store)
    → Ids s
    → find_row r.id s.jobs ≡ some r
    → (r' : JobRow) × (find_row r.id (run codec cs s).jobs ≡ some r') × SameJob r r'
jobs_survive codec r cs s v e =
    (run-keeps codec (Survives codec r) AnyCall (inserts-Survives codec r)
      (λ c _. moves-Survives codec r c) cs s (All-AnyCall cs) (v, (r, e, ground arith))).1
