-- ===== src/MemDriver/History.antt =====
-- The calls of internal/memdriver/memdriver.go as one data type, what a call does to the store, and
-- the change that it makes to one row. A call that releases the mutex half way (the operator calls)
-- stands for each of its passes.
use drover.Prelude.{ℕ, String, ◌≡◌, true, List, [], ◌∷◌, Option, none, ok}
use drover.Driver.{Time, Bytes, completed, cancelled, dead, Lease, InsertParams, JobRow, Codec}
use drover.MemDriver.Rows.{Store}
use drover.MemDriver.Insert.{insert, insert_many}
use drover.MemDriver.Claim.{
  waiting, is_running, claim, reclaim, fetch_available, fetch_expired, extend_leases,
}
use drover.MemDriver.Mark.{
  finalized, retried, snoozed, mark_completed, mark_dead, mark_cancelled, mark_retryable,
  mark_snoozed,
}
use drover.MemDriver.Operator.{cancellable, is_dead, cancel_row, redrive_row, operate}

pub data Call : Type 0 where
  inserts : InsertParams → Call
  inserts_many : List InsertParams → Call
  fetches : String → Time → ℕ → Call
  rescues : Time → ℕ → Call
  extends : List Lease → Time → Call
  completes : Lease → Call
  kills : Lease → Option Bytes → Call
  cancels : Lease → Option Bytes → Call
  retries : Lease → Time → Option Bytes → Call
  snoozes : Lease → Time → Call
  operator_cancels : ℕ → Call
  redrives : ℕ → Call

unfoldable pub step : Codec → Time → Call → Store → Store
step codec now (inserts params) s = (insert now params s).0
step codec now (inserts_many batch) s = (insert_many now batch s).0
step codec now (fetches queue lease_for limit) s = (fetch_available now queue lease_for limit s).0
step codec now (rescues lease_for limit) s = (fetch_expired now lease_for limit s).0
step codec now (extends leases lease_for) s = extend_leases now leases lease_for s
step codec now (completes lease) s = (mark_completed codec now lease s).0
step codec now (kills lease detail) s = (mark_dead codec now lease detail s).0
step codec now (cancels lease detail) s = (mark_cancelled codec now lease detail s).0
step codec now (retries lease at detail) s = (mark_retryable codec lease at detail s).0
step codec now (snoozes lease at) s = (mark_snoozed lease at s).0
step codec now (operator_cancels id) s = (operate cancellable (cancel_row now) id s).0
step codec now (redrives id) s = (operate is_dead (redrive_row now) id s).0

unfoldable pub run : Codec → List (Time × Call) → Store → Store
run codec [] s = s
run codec ((now, c) ∷ cs) s = run codec cs (step codec now c s)

abbrev pub empty_store : Store
empty_store = record { next_id = 0; jobs = [] }

-- What a finished attempt does to its row, before the lease is cleared.
pub data Outcome (codec : Codec) (r x : JobRow) : Type 0 where
  finalizes :
      (now : Time) (detail : Option Bytes)
      → (finalized codec now completed detail r ≡ ok x)
      → Outcome codec r x
  dies :
      (now : Time) (detail : Option Bytes)
      → (finalized codec now dead detail r ≡ ok x)
      → Outcome codec r x
  gives_up :
      (now : Time) (detail : Option Bytes)
      → (finalized codec now cancelled detail r ≡ ok x)
      → Outcome codec r x
  retries_at :
      (at : Time) (detail : Option Bytes) → (retried codec at detail r ≡ ok x) → Outcome codec r x
  snoozes_to : (at : Time) → (snoozed at r ≡ ok x) → Outcome codec r x

-- The change that call `c` makes to one row.
pub data Move (codec : Codec) (c : Call) (r r' : JobRow) : Type 0 where
  claimed : (until : Time) → waiting r.state ≡ true → r' ≡ claim until r → Move codec c r r'
  renewed : (until : Time) → is_running r.state ≡ true → r' ≡ reclaim until r → Move codec c r r'
  ended :
      (x : JobRow)
      → is_running r.state ≡ true
      → Outcome codec r x
      → r' ≡ record x { leased_until = none }
      → Move codec c r r'
  stopped : (now : Time) → cancellable r.state ≡ true → r' ≡ cancel_row now r → Move codec c r r'
  redriven :
      (now : Time) (id : ℕ)
      → c ≡ redrives id
      → is_dead r.state ≡ true
      → r' ≡ redrive_row now r
      → Move codec c r r'
