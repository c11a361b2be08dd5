-- ===== src/Pool.antt =====
-- pool.go: the fetch loop's claims, the hand-back of jobs, and the accounting of worker slots. Contexts,
-- timeouts and logging are left out.
pub mod Claims
pub mod Returns
pub mod Slots
pub mod Runner
mod Tests
use drover.Prelude.{
  ℕ, zero, suc, ◌+◌, ◌-◌, String, Bool, true, false, ◌||◌, List, [], ◌∷◌, ◌++◌, map, Option, none,
  some, ltb, ◌==◌, if◌then◌else◌, length, take, drop, Result, ok, err,
}
use drover.Driver.{Lease, JobRow, Error}
use drover.Inflight.{Inflight, add, remove, snapshot}
use drover.Dispose.{lease_of}

abbrev pub leases_of : List JobRow → List Lease
leases_of rows = map lease_of rows

unfoldable pub add_all : List Lease → Inflight → Inflight
add_all [] t = t
add_all (l ∷ ls) t = add_all ls (add l t)

unfoldable pub remove_all : List Lease → Inflight → Inflight
remove_all [] t = t
remove_all (l ∷ ls) t = remove_all ls (remove l t)

-- `give_back` is the requeue of one lease; `fetch` is FetchAvailable at the client's lease duration, from
-- a driver that may answer with more rows than it was asked for; `stopping` is what the runner sees of
-- shutdown, by the number of queues still to visit.
module _ {S : Type 0} (give_back : Lease → S → S × Result Error (Unit {0})) where
  -- A hand-back that fails is reported and the rest still go.
  unfoldable pub requeue_all : List Lease → S → S
  requeue_all [] s = s
  requeue_all (l ∷ ls) s = requeue_all ls (give_back l s).0

  -- The rows that are kept of a claim, and what the surplus does to the store and the in-flight set.
  unfoldable pub keep_requested : ℕ → List JobRow → S → Inflight → List JobRow × S × Inflight
  unfolding requeue_all remove_all
  keep_requested remaining rows s t =
      if ltb remaining (length rows)
      then (
        take remaining rows,
        requeue_all (leases_of (drop remaining rows)) s,
        remove_all (leases_of (drop remaining rows)) t,
      )
      else (rows, s, t)

  module _ (fetch : String → ℕ → S → S × Result Error (List JobRow)) (stopping : ℕ → Bool) where
    -- The loop over the queues of the round.
    unfoldable pub claim_from :
        List String → ℕ → List JobRow → S → Inflight → List JobRow × S × Inflight
    unfolding keep_requested add_all
    claim_from [] remaining claimed s t = (claimed, s, t)
    claim_from (queue ∷ order) remaining claimed s t =
        let fetched = fetch queue remaining s in
        elim fetched.1 [
          | err e ↦ (claimed, fetched.0, t)
          | ok rows ↦
              let (kept, s', t') =
                keep_requested remaining rows fetched.0 (add_all (leases_of rows) t) in
              let left = remaining - length kept in
              let rest = claim_from order left (claimed ++ kept) s' t' in
              if left == 0 || stopping (length order) then (claimed ++ kept, s', t') else rest
        ]

    unfoldable pub claim_round : List String → ℕ → S → Inflight → List JobRow × S × Inflight
    unfolding claim_from
    claim_round order capacity s t = claim_from order capacity [] s t

  -- Rows that were claimed and never handed over; it also gives their slots back.
  unfoldable pub abandon : List JobRow → S → Inflight → S × Inflight
  unfolding requeue_all remove_all
  abandon rows s t = (requeue_all (leases_of rows) s, remove_all (leases_of rows) t)

  -- The end of a shutdown whose budget is spent: how many jobs were still running, if any.
  unfoldable pub escalate : S → Inflight → S × Option ℕ
  unfolding requeue_all snapshot
  escalate s t =
      let stranded = snapshot t in
      if length stranded == 0 then (s, none) else (requeue_all stranded s, some (length stranded))
