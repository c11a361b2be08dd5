-- ===== src/MemDriver/Fence.antt =====
-- The attempt number as a fence in memdriver.go, against leases that a job has left behind.
use drover.Prelude.{
  ℕ, ◌≡◌, refl, ◌<◌, ◌≤◌, true, false, List, some, arith, All, err, Result, ◌==◌, Bool-cases,
  Option-cases, inl, inr, subst, ◌∙◌,
}
use drover.Driver.{
  Time, JobState, Lease, JobRow, Error, Codec, not_found, invalid_transition, lease_lost,
}
use drover.MemDriver.Rows.{Store, find_row}
use drover.MemDriver.RowLaws.{find_row-id, All-put_row, All-find_row}
use drover.MemDriver.Insert.{job_from_params}
use drover.MemDriver.Claim.{waiting, is_running, claim, reclaim, extend_one}
use drover.MemDriver.Mark.{append_error, finalized, retried, snoozed, transition}
use drover.MemDriver.Operator.{cancel_row}
use drover.MemDriver.History.{
  Call, run, Outcome, finalizes, dies, gives_up, retries_at, snoozes_to, Move, claimed, renewed,
  ended, stopped, redriven,
}
use drover.MemDriver.Ids.{Ids, All-at}
use drover.MemDriver.Moves.{KeepsMoves, KeepsInserts, Outcome-id, run-keeps}
use drover.MemDriver.Unique.{NoRedrive}

-- The row is past attempt `a`: waiting it has used at least `a`, and running it is on a later one.
record Past (a : ℕ) (r : JobRow) : Type 0 where
  waits : waiting r.state ≡ true → a ≤ r.attempt
  runs : is_running r.state ≡ true → a < r.attempt

Outcome-Past :
    (codec : Codec) (a : ℕ) (r x : JobRow)
    → is_running r.state ≡ true
    → Outcome codec r x
    → Past a r
    → Past a x
unfolding finalized retried snoozed append_error
Outcome-Past codec a r x on (finalizes now detail e) v = ground arith
Outcome-Past codec a r x on (dies now detail e) v = ground arith
Outcome-Past codec a r x on (gives_up now detail e) v = ground arith
Outcome-Past codec a r x on (retries_at at detail e) v = ground arith
Outcome-Past codec a r x on (snoozes_to at e) v = ground arith

Move-Past :
    (codec : Codec) (c : Call) (a : ℕ) (r r' : JobRow)
    → NoRedrive c
    → Move codec c r r'
    → Past a r
    → Past a r'
unfolding claim reclaim cancel_row
Move-Past codec c a r r' calm (claimed until w e) v = ground arith
Move-Past codec c a r r' calm (renewed until on e) v = ground arith
Move-Past codec c a r r' calm (ended x on out e) v =
    ground (arith, Outcome-Past codec a r x on out v)
Move-Past codec c a r r' calm (stopped now off e) v = ground arith
Move-Past codec c a r r' calm (redriven now id call d e) v = absurd (subst NoRedrive call calm)

Move-id :
    (codec : Codec) (c : Call) (r r' : JobRow) → NoRedrive c → Move codec c r r' → r'.id ≡ r.id
unfolding claim reclaim cancel_row
Move-id codec c r r' calm (claimed until w e) = ground arith
Move-id codec c r r' calm (renewed until on e) = ground arith
Move-id codec c r r' calm (ended x on out e) = ground (arith, Outcome-id codec r x out)
Move-id codec c r r' calm (stopped now off e) = ground arith
Move-id codec c r r' calm (redriven now id call d e) = absurd (subst NoRedrive call calm)

module _ (codec : Codec) (lease : Lease) where
  abbrev PastLease : JobRow → Type 0
  PastLease r = r.id ≡ lease.id → Past lease.attempt r

  abbrev IsStale : Store → Type 0
  IsStale s = (lease.id ≤ s.next_id) × All PastLease s.jobs

  inserts-IsStale : KeepsInserts codec IsStale
  unfolding job_from_params
  inserts-IsStale s now params v q free =
      (omega arith, All-put_row PastLease _ s.jobs (λ e. absurd (omega arith)) q.1)

  moves-IsStale : (c : Call) → NoRedrive c → KeepsMoves codec IsStale c
  moves-IsStale c calm s r r' v q e m = (
    q.0,
    All-put_row PastLease r' s.jobs
        (λ i.
          Move-Past codec c lease.attempt r r' calm m
            (All-find_row PastLease r'.id r s.jobs e q.1 (find_row-id r'.id r s.jobs e ∙ i)))
        q.1,
  )

  refused :
      (s : Store) (apply : JobRow → Result Error JobRow)
      → All PastLease s.jobs
      → (e : Error) × (transition lease apply s ≡ (s, err e))
  unfolding transition
  refused s apply h = elim (Option-cases (find_row lease.id s.jobs)) [
    | inl e ↦ (not_found lease.id, rw (e, transition) refl)
    | inr (r, e) ↦
        let past = All-find_row PastLease lease.id r s.jobs e h (find_row-id lease.id r s.jobs e) in
        elim (Bool-cases (is_running r.state)) [
          | inr off ↦ (invalid_transition lease.id r.state, rw (e, transition) (rw off refl))
          | inl on ↦
              let late : (r.attempt == lease.attempt) ≡ false = ground (arith, past.runs on) in
              (lease_lost lease.id r.attempt lease.attempt, rw (e, transition) (rw (on, late) refl))
        ]
  ]

  unrenewed :
      (until : Time) (s : Store) → All PastLease s.jobs → extend_one until lease s.jobs ≡ s.jobs
  unfolding extend_one
  unrenewed until s h = elim (Option-cases (find_row lease.id s.jobs)) [
    | inl e ↦ rw (e, extend_one) refl
    | inr (r, e) ↦
        let past = All-find_row PastLease lease.id r s.jobs e h (find_row-id lease.id r s.jobs e) in
        rw (e, extend_one) (ground (arith, past))
  ]

waiting-is_running : (st : JobState) → waiting st ≡ true → is_running st ≡ true → ⊥
waiting-is_running st w on = ground arith

-- Once a job that was claimed under a lease waits in the queue again, on the attempt of the lease or a
-- later one, no history of calls without RedriveDead makes the lease good again: every Mark method is
-- refused and leaves the store as it is, and a heartbeat extends nothing.
pub stale_lease_refused :
    (codec : Codec) (lease : Lease) (cs : List (Time × Call)) (s : Store) (r : JobRow)
    (apply : JobRow → Result Error JobRow) (until : Time)
    → Ids s
    → find_row lease.id s.jobs ≡ some r
    → waiting r.state ≡ true
    → lease.attempt ≤ r.attempt
    → All (λ c. NoRedrive c.1) cs
    → let t = run codec cs s in
      ((e : Error) × (transition lease apply t ≡ (t, err e)))
      × (extend_one until lease t.jobs ≡ t.jobs)
stale_lease_refused codec lease cs s r apply until v e w late calm =
    let stale : Ids s × IsStale codec lease s = (
      v,
      (
        subst (λ i. i ≤ s.next_id) (find_row-id lease.id r s.jobs e)
            (All-find_row (λ x. x.id ≤ s.next_id) lease.id r s.jobs e v.bounded),
        All-at (Past lease.attempt) lease.id r s.jobs v.distinct e
            (record { waits = λ _. late; runs = λ on. absurd (waiting-is_running r.state w on) }),
      ),
    ) in
    let after =
      (run-keeps codec (IsStale codec lease) NoRedrive (inserts-IsStale codec lease)
        (moves-IsStale codec lease) cs s calm stale).1.1 in
    (
      refused codec lease (run codec cs s) apply after,
      unrenewed codec lease until (run codec cs s) after,
    )
