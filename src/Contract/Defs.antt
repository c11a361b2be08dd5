-- ===== src/Contract/Defs.antt =====
-- The operations and laws of driver.Driver that the client's loop rests on.
use drover.Prelude.{ℕ, ◌≡◌, ◌≤◌, length, ◌≢◌, ◌⊎◌, true, List, Option, none, some, Result, ok, err}
use drover.Driver.{
  Time, Bytes, JobState, scheduled, retryable, completed, cancelled, dead, Lease, JobRow, Error,
}
use drover.MemDriver.Claim.{is_running}

-- The lease's job was running on the lease's attempt, and is now in `state` with no lease; every other
-- job is as it was.
pub record Lands {ℓ} {S : Type ℓ} (look : ℕ → S → Option JobRow) (lease : Lease) (state : JobState)
    (s s' : S) : Type ℓ where
  pub before :
      (r : JobRow) × (look lease.id s ≡ some r)
      × (is_running r.state ≡ true)
      × (r.attempt ≡ lease.attempt)
  pub after :
      (r : JobRow) × (look lease.id s' ≡ some r) × (r.state ≡ state) × (r.leased_until ≡ none)
  pub others : (id : ℕ) → id ≢ lease.id → look id s' ≡ look id s

-- A call either lands or fails and changes nothing.
abbrev pub Settles {ℓ} :
    {S : Type ℓ}
    → (ℕ → S → Option JobRow)
    → Lease
    → JobState
    → S
    → S × Result Error (Unit {0})
    → Type ℓ
Settles look lease state s out =
    ((out.1 ≡ ok tt) × Lands look lease state s out.0) ⊎ ((e : Error) × (out ≡ (s, err e)))

pub record Driver (S : Type 0) : Type 0 where
  pub look : ℕ → S → Option JobRow
  pub mark_completed : Time → Lease → S → S × Result Error (Unit {0})
  pub mark_retryable : Lease → Time → Option Bytes → S → S × Result Error (Unit {0})
  pub mark_dead : Time → Lease → Option Bytes → S → S × Result Error (Unit {0})
  pub mark_cancelled : Time → Lease → Option Bytes → S → S × Result Error (Unit {0})
  pub mark_snoozed : Lease → Time → S → S × Result Error (Unit {0})
  pub fetch_expired : Time → Time → ℕ → S → S × Result Error (List JobRow)
  pub completed_lem :
      (now : Time) (lease : Lease) (s : S)
      → Settles look lease completed s (mark_completed now lease s)
  pub retryable_lem :
      (lease : Lease) (at : Time) (detail : Option Bytes) (s : S)
      → Settles look lease retryable s (mark_retryable lease at detail s)
  pub dead_lem :
      (now : Time) (lease : Lease) (detail : Option Bytes) (s : S)
      → Settles look lease dead s (mark_dead now lease detail s)
  pub cancelled_lem :
      (now : Time) (lease : Lease) (detail : Option Bytes) (s : S)
      → Settles look lease cancelled s (mark_cancelled now lease detail s)
  pub snoozed_lem :
      (lease : Lease) (at : Time) (s : S) → Settles look lease scheduled s (mark_snoozed lease at s)
  pub expired_lem :
      (now lease_for : Time) (limit : ℕ) (s : S) (rows : List JobRow)
      → (fetch_expired now lease_for limit s).1 ≡ ok rows
      → length rows ≤ limit
