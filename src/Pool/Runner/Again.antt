-- ===== src/Pool/Runner/Again.antt =====
-- A job that is claimed again, on an attempt that a snooze gave back, while its first run still returns.
use drover.Prelude.{ℕ, ◌<◌, ◌≡◌, refl, [], ◌∷◌, none, true, arith, inl, inr, ok}
use drover.Driver.{Time, Lease, JobRow}
use drover.MemDriver.Claim.{claim}
use drover.MemDriver.Mark.{snoozed}
use drover.Inflight.{Inflight, add, remove, attempt_of}
use drover.Inflight.Laws.{attempt_of-add, attempt_of-delete}
use drover.Pool.{add_all}
use drover.Pool.Runner.{
  serving, Runner, new_runner, takes, has_enough, claims, hands, finishes, Run, here, moves,
}

abbrev pub lease_of_row : JobRow → Lease
lease_of_row row = record { id = row.id; attempt = row.attempt }

removed : (l : Lease) (t : Inflight) → attempt_of l.id (remove l (add l t)) ≡ none
unfolding remove
removed l t = ground (arith, attempt_of-add l.id l t, attempt_of-delete l.id l.id (add l t))

-- MarkSnoozed gives the attempt back, so the next claim of the job is on the attempt of the run that snoozed it. In a
-- pool of two workers that claim can come before the first run's deferred remove, which then untracks the job of the
-- second: the job runs, the pool is not stopping, and no heartbeat renews its lease.
pub claim_again-untracks :
    (b : ℕ) (row : JobRow) (at until : Time)
    → 0 < row.attempt
    → ((back : JobRow) × (snoozed at row ≡ ok back)
        × (lease_of_row (claim until back) ≡ lease_of_row row))
      × (k : ℕ) × (q : Runner) × Run 2 (new_runner 2 b) k q
      × (q.running ≡ lease_of_row row ∷ [])
      × (q.drain ≡ serving)
      × (attempt_of row.id q.inflight ≡ none)
unfolding snoozed claim add_all
claim_again-untracks b row at until used =
    let l = lease_of_row row in
    let asking =
      moves
        (moves (moves here (takes 0 refl (omega arith) (omega arith)))
          (takes 1 refl (omega arith) (omega arith)))
        (has_enough 2 refl (omega arith) (inl refl)) in
    let first =
      moves (moves asking (claims 2 true (l ∷ []) refl (omega arith)))
        (hands l [] refl (omega arith)) in
    let asking_again =
      moves (moves first (takes 0 refl (omega arith) (omega arith)))
        (has_enough 1 refl (omega arith) (inr refl)) in
    let second =
      moves (moves asking_again (claims 1 true (l ∷ []) refl (omega arith)))
        (hands l [] refl (omega arith)) in
    let over = moves second (finishes l [] (l ∷ []) refl) in
    ((_, refl, ground arith), _, _, over, refl, refl, removed l _)
