-- ===== src/Pool/Slots.antt =====
-- The slot tokens of the pool as a state machine: the fetch loop takes a token for each idle worker,
-- gives back those it has no job for, and hands each claimed job over to a worker, who returns the token
-- when the job has run.
use drover.Prelude.{ℕ, ◌+◌, ◌-◌, ◌≡◌, ◌≤◌, ◌<◌, arith}

-- `idle` tokens in the channel, `held` by the fetch loop, and jobs `pending` its hand-over or `busy`.
pub record Slots : Type 0 where
  pub idle : ℕ
  pub held : ℕ
  pub pending : ℕ
  pub busy : ℕ

-- newRunner fills the channel.
abbrev pub all_idle : ℕ → Slots
all_idle concurrency = record { idle = concurrency; held = 0; pending = 0; busy = 0 }

-- One receive of acquireSlots.
unfoldable pub take_slot : Slots → Slots
take_slot p = record p { idle = p.idle - 1; held = p.held + 1 }

-- The round has claimed `n` jobs, and releaseSlots gives back the tokens that it does not need.
unfoldable pub release_slots : ℕ → Slots → Slots
release_slots n p = record p { idle = p.idle + (p.held - n); held = 0; pending = n }

unfoldable pub hand_over : Slots → Slots
hand_over p = record p { pending = p.pending - 1; busy = p.busy + 1 }

-- The end of work's loop body.
unfoldable pub finish : Slots → Slots
finish p = record p { idle = p.idle + 1; busy = p.busy - 1 }

-- abandon's releaseSlots.
unfoldable pub give_up : Slots → Slots
give_up p = record p { idle = p.idle + p.pending; pending = 0 }

-- The fetch loop takes tokens only when the jobs of the last round are handed over, and not more than
-- there are workers; a round claims at most as many jobs as there are tokens held.
pub data Step (concurrency : ℕ) : Slots → Slots → Type 0 where
  takes :
      {p : Slots}
      → 0 < p.idle
      → p.pending ≡ 0
      → p.held < concurrency
      → Step concurrency p (take_slot p)
  claims :
      {p : Slots} (n : ℕ)
      → 0 < p.held
      → p.pending ≡ 0
      → n ≤ p.held
      → Step concurrency p (release_slots n p)
  hands : {p : Slots} → 0 < p.pending → Step concurrency p (hand_over p)
  finishes : {p : Slots} → 0 < p.busy → Step concurrency p (finish p)
  gives_up : {p : Slots} → Step concurrency p (give_up p)

pub data Reached (concurrency : ℕ) : Slots → Type 0 where
  start : Reached concurrency (all_idle concurrency)
  next : {p q : Slots} → Reached concurrency p → Step concurrency p q → Reached concurrency q

abbrev pub tokens : Slots → ℕ
tokens p = p.idle + p.held + p.pending + p.busy

Step-tokens : {concurrency : ℕ} {p q : Slots} → Step concurrency p q → tokens q ≡ tokens p
unfolding take_slot release_slots hand_over finish give_up
Step-tokens (takes a b c) = omega arith
Step-tokens (claims n a b c) = omega arith
Step-tokens (hands a) = omega arith
Step-tokens (finishes a) = omega arith
Step-tokens gives_up = omega arith

-- However the loops interleave, each token is in one place: idle, held by the fetch loop, or with a job.
-- So the jobs that are claimed never outnumber the workers, and the channel, which has room for as many
-- tokens as there are workers, is never asked to hold more, so giving a token back never blocks.
pub Reached-tokens :
    {concurrency : ℕ} {p : Slots}
    → Reached concurrency p
    → (tokens p ≡ concurrency) × (p.pending + p.busy ≤ concurrency) × (p.idle ≤ concurrency)
Reached-tokens start = (omega arith, omega arith, omega arith)
Reached-tokens (next r s) =
    let (all, jobs, room) = Reached-tokens r in
    let same = Step-tokens s in (omega arith, omega arith, omega arith)
