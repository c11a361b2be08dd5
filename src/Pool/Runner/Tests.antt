-- ===== src/Pool/Runner/Tests.antt =====
-- A pool of two workers that claims a job and is stopped while the job runs.
use drover.Prelude.{
  ℕ, ◌*◌, ◌+◌, ◌≤◌, ◌≡◌, ◌≢◌, ◌⊎◌, refl, true, false, [], ◌∷◌, Option, none, some, ok, All, arith,
  inl,
}
use drover.Driver.{Lease, JobRow, running}
use drover.MemDriver.Claim.{claim}
use drover.MemDriver.Mark.{snoozed}
use drover.MemDriver.Sample.{job as sample_job}
use drover.Pool.Runner.Again.{lease_of_row, claim_again-untracks}
use drover.Inflight.{add, remove, delete, attempt_of}
use drover.Pool.{add_all}
use drover.Pool.Slots
use drover.Pool.Runner.{
  Runner, new_runner, acquiring, takes, has_enough, claims, hands, finishes, stops, Run, here,
  moves, signals, drained, waiting, serving, stopping,
}
use drover.Pool.Runner.Tokens.{slots_of, Run-Reached}
use drover.Pool.Runner.Draining.{CanMove}
use drover.Pool.Runner.Ending.{stop-Ends}
use drover.Pool.Runner.Books.{Tracked}
use drover.Pool.Runner.Tracking.{in_hand, Run-Tracked}
use drover.Pool.Runner.Late.{clean_stop-leaves_job}

abbrev job : Lease
job = record { id = 4; attempt = 1 }

abbrev claimed : Runner
claimed = record (new_runner 2 3) {
  idle = 1;
  fetcher = acquiring 0;
  receiving = 1;
  running = job ∷ [];
  inflight = job ∷ [];
  claimed = job ∷ [];
}

taken : Run 2 (new_runner 2 3) 2 (record (new_runner 2 3) { idle = 0; fetcher = acquiring 2 })
taken =
    moves (moves here (takes 0 refl (omega arith) (omega arith)))
      (takes 1 refl (omega arith) (omega arith))

working : Run 2 (new_runner 2 3) 5 claimed
unfolding add_all add
working =
    moves
      (moves (moves taken (has_enough 2 refl (omega arith) (inl refl)))
        (claims 2 true (job ∷ []) refl (omega arith)))
      (hands job [] refl (omega arith))

abbrev stopped : Runner
stopped = record claimed { drain = waiting }

stopping_pool : Run 2 (new_runner 2 3) 6 stopped
stopping_pool = signals working (stops refl)

abbrev done : Runner
done = record stopped { running = []; returning = 1; inflight = [] }

finished : Run 2 stopped 1 done
unfolding remove delete attempt_of
finished = moves here (finishes job [] [] refl)

stop-Ends_example :
    (((v : Option ℕ) × (done.drain ≡ drained v)) ⊎ CanMove 2 done)
    × (stopping stopped.drain ≡ true → 1 ≤ 7 * 2 + 3 + 7)
unfolding finished
stop-Ends_example = stop-Ends (omega arith) stopping_pool finished (tt, tt)

Run-Tracked_example :
    All (Tracked stopped.inflight stopped.claimed) (in_hand stopped)
    × (stopped.expired ≡ false
        → in_hand stopped ≢ []
        → (stopped.beating ≡ true) × (stopped.job_live ≡ true))
unfolding stopping_pool working taken
Run-Tracked_example = Run-Tracked stopping_pool (((((tt, tt), tt), tt), ((tt, tt), (tt, tt))), tt)

Run-Reached_example : Slots.Reached 2 (slots_of stopped)
Run-Reached_example = Run-Reached stopping_pool

abbrev snoozing : JobRow
snoozing = sample_job 4 running 1 (some 60) none ""

claim_again-untracks_example :
    ((back : JobRow) × (snoozed 50 snoozing ≡ ok back)
      × (lease_of_row (claim 90 back) ≡ lease_of_row snoozing))
    × (k : ℕ) × (q : Runner) × Run 2 (new_runner 2 3) k q
    × (q.running ≡ lease_of_row snoozing ∷ [])
    × (q.drain ≡ serving)
    × (attempt_of 4 q.inflight ≡ none)
claim_again-untracks_example = claim_again-untracks 3 snoozing 50 90 (omega arith)

clean_stop-leaves_job_example :
    (k : ℕ) × (q : Runner) × Run 2 (new_runner 2 3) k q
    × (q.drain ≡ drained none)
    × (q.running ≡ job ∷ [])
    × (q.beating ≡ false)
    × (q.job_live ≡ false)
clean_stop-leaves_job_example = clean_stop-leaves_job 2 3 job (omega arith)
