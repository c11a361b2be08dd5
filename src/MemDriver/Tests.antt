-- ===== src/MemDriver/Tests.antt =====
-- Runs of memdriver.go's model on a small store, and its theorems at concrete inputs.
use drover.Prelude.{
  ℕ, ◌≡◌, ◌≢◌, refl, String, true, List, [], ◌∷◌, ◌++◌, map, none, some, arith, All, Pairs, Perm,
  ok, err, sort_by, keep_if, length, min, pos,
}
use drover.Driver.{
  Time, available, running, retryable, dead, Lease, InsertParams, JobRow, Error, duplicate_job,
}
use drover.MemDriver.Sample.{split, join, write, read, marked, job, sample}
use drover.MemDriver.Rows.{Store, find_row}
use drover.MemDriver.Insert.{
  build_pending, active_conflict, extra_conflict, job_from_params, insert_many, unique_conflict,
}
use drover.MemDriver.Claim.{
  select_rows, take_rows, claim, is_due, row_before, by_scheduled_at, fetch_available, extend_one,
}
use drover.MemDriver.Mark.{
  commit, append_error, transition, mark_retryable, mark_completed, retried,
}
use drover.MemDriver.History.{
  Call, inserts, fetches, rescues, completes, retries, redrives, step, run,
}
use drover.MemDriver.Ids.{Ids}
use drover.MemDriver.Batch.{insert_each, all_or_none, insert_many-insert_each}
use drover.MemDriver.Validity.{IsValid, run-IsValid}
use drover.MemDriver.Unique.{clash, SlotsFree, run-SlotsFree, redrive-clash}
use drover.MemDriver.Fence.{stale_lease_refused}
use drover.MemDriver.Fetching.{Earlier, fetch_available-earliest}
use drover.MemDriver.Read.{ListJobsParams}

sample-Ids : Ids sample
sample-Ids = record { bounded = omega arith; distinct = omega arith }

sample-IsValid : IsValid sample
sample-IsValid = record { ids = sample-Ids; rows = ground arith }

abbrev mail : String → InsertParams
mail key = record {
  kind = "mail";
  queue = "default";
  args = [];
  scheduled_at = 0;
  unique_key = key;
}

abbrev busy_day : List (Time × Call)
busy_day =
    (70, inserts (mail "k"))
    ∷ (71, rescues 60 100)
    ∷ (72, retries (record { id = 1; attempt = 1 }) 80 (some (9 ∷ [])))
    ∷ (90, fetches "default" 60 10)
    ∷ (95, completes (record { id = 1; attempt = 2 }))
    ∷ []

run-IsValid_example : IsValid (run marked busy_day sample)
run-IsValid_example = run-IsValid marked busy_day sample sample-IsValid

run-SlotsFree_example : SlotsFree (run marked busy_day sample)
run-SlotsFree_example =
    run-SlotsFree marked busy_day sample (ground arith) sample-Ids (ground arith)

abbrev lease_4 : Lease
lease_4 = record { id = 4; attempt = 2 }

stale_lease_refused_example :
    let t = run marked busy_day sample in
    ((e : Error) × (transition lease_4 (retried marked 99 none) t ≡ (t, err e)))
    × (extend_one 99 lease_4 t.jobs ≡ t.jobs)
stale_lease_refused_example =
    stale_lease_refused marked lease_4 busy_day sample (job 4 retryable 2 none none "")
      (retried marked 99 none) 99 sample-Ids (unfold find_row in refl) refl (omega arith)
      (ground arith)

fetch_available-earliest_example :
    let after = fetch_available 70 "default" 60 1 sample in
    (chosen : List JobRow) × (left : List JobRow) × (after.1 ≡ map (claim 130) chosen)
    × Perm (chosen ++ left) (keep_if (is_due 70 "default") sample.jobs)
    × Pairs Earlier (chosen ++ left)
    × (length chosen ≡ min 1 (length (chosen ++ left)))
    × All (λ r. find_row r.id after.0.jobs ≡ some (claim 130 r)) chosen
    × ((id : ℕ) → All (λ r. r.id ≢ id) chosen → find_row id after.0.jobs ≡ find_row id sample.jobs)
fetch_available-earliest_example = fetch_available-earliest 70 "default" 60 1 sample sample-Ids

-- The fetch of one job takes the one that is due first.
fetch_first :
    (fetch_available 70 "default" 60 1 sample).1 ≡ job 2 running 1 (some 130) none "k" ∷ []
unfolding fetch_available select_rows row_before by_scheduled_at sort_by take_rows claim
fetch_first = refl

insert_many-insert_each_example :
    insert_many 70 (mail "a" ∷ mail "b" ∷ []) sample
    ≡ all_or_none sample (insert_each 70 (mail "a" ∷ mail "b" ∷ []) sample)
insert_many-insert_each_example =
    insert_many-insert_each 70 (mail "a" ∷ mail "b" ∷ []) sample sample-Ids.bounded

-- A batch that repeats a key is refused whole.
batch_repeats : insert_many 70 (mail "a" ∷ mail "a" ∷ []) sample ≡ (sample, err duplicate_job)
unfolding insert_many build_pending unique_conflict active_conflict extra_conflict job_from_params
batch_repeats = refl

redrive-clash_example :
    let jobs = (step marked 70 (redrives 3) sample).jobs in
    (r' : JobRow) × (find_row 3 jobs ≡ some r')
    × (find_row 2 jobs ≡ some (job 2 available 0 none none "k"))
    × (clash (job 2 available 0 none none "k") r' ≡ true)
redrive-clash_example =
    redrive-clash marked 70 sample (job 3 dead 25 none (some 50) "k")
      (job 2 available 0 none none "k") (unfold find_row in refl) refl (unfold find_row in refl)
      (omega arith) refl refl refl

abbrev lease_1 : Lease
lease_1 = record { id = 1; attempt = 1 }

retry_lands : (mark_retryable marked lease_1 99 (some (7 ∷ [])) sample).1 ≡ ok tt
unfolding mark_retryable transition commit retried append_error find_row read write join split
retry_lands = refl

abbrev all_jobs : ListJobsParams
all_jobs = record { queue = ""; state = ""; limit = pos 2 }

-- Before the re-read another worker finishes the running job 1.
abbrev finish_1 : Store → Store
finish_1 s = (mark_completed marked 70 lease_1 s).0
