-- ===== src/Pool/Runner.antt =====
-- A running pool of pool.go as a step relation over its goroutines: the fetch loop, the workers, the
-- background goroutines, and drain. A claim is one step with the rows that claimRound returns; what the
-- jobs write to the store is Dispose's. The ops server and LISTEN are left out.

pub mod Tokens
pub mod Draining
pub mod Ending
pub mod Books
pub mod Tracking
pub mod Late
pub mod Again
mod Tests
use drover.Prelude.{
  ℕ, suc, ◌+◌, ◌-◌, ◌≡◌, ◌≢◌, ◌≤◌, ◌<◌, ◌⊎◌, Bool, true, false, not, List, [], ◌∷◌, ◌++◌, Option,
  none, some, ◌==◌, if◌then◌else◌, length, All, Pairs,
}
use drover.Driver.{Lease}
use drover.Inflight.{Inflight, add, remove, snapshot}
use drover.Pool.{add_all, remove_all}

-- Where the fetch loop stands: in acquireSlots with the tokens it has taken; in claimRound with its
-- tokens, and whether the round began before the pool was stopped; in sleep; before the hand-over of a
-- row, with the rows after it; or returned, which closes the channel of jobs.
pub data Fetcher : Type 0 where
  acquiring : ℕ → Fetcher
  claiming : ℕ → Bool → Fetcher
  sleeping : Fetcher
  dispatching : Lease → List Lease → Fetcher
  ended : Fetcher

-- Where the shutdown stands: not begun; waiting for the fetch loop and the workers; waiting for the
-- background goroutines, with how many jobs escalate reported; or over.
pub data Drain : Type 0 where
  serving : Drain
  waiting : Drain
  joining : Option ℕ → Drain
  drained : Option ℕ → Drain

-- `idle` tokens in `slots`; workers that wait for a job, that run one, that return their token, and that
-- have exited; the goroutines besides the heartbeat in `background`; whether the handlers' context is
-- live; the set of the client; every lease that was claimed, newest first; and whether the budget of the
-- shutdown ran out.
pub record Runner : Type 0 where
  pub idle : ℕ
  pub fetcher : Fetcher
  pub receiving : ℕ
  pub running : List Lease
  pub returning : ℕ
  pub exited : ℕ
  pub background : ℕ
  pub beating : Bool
  pub job_live : Bool
  pub drain : Drain
  pub inflight : Inflight
  pub claimed : List Lease
  pub expired : Bool

abbrev pub new_runner : ℕ → ℕ → Runner
new_runner concurrency background = record {
  idle = concurrency;
  fetcher = acquiring 0;
  receiving = concurrency;
  running = [];
  returning = 0;
  exited = 0;
  background = background;
  beating = true;
  job_live = true;
  drain = serving;
  inflight = [];
  claimed = [];
  expired = false;
}

-- stopFetch is closed.
abbrev pub stopping : Drain → Bool
stopping serving = false
stopping waiting = true
stopping (joining v) = true
stopping (drained v) = true

-- stopHeartbeat is closed.
abbrev pub heartbeat_stopped : Drain → Bool
heartbeat_stopped serving = false
heartbeat_stopped waiting = false
heartbeat_stopped (joining v) = true
heartbeat_stopped (drained v) = true

-- The loop over the rows of a round.
abbrev pub dispatch_rows : List Lease → Fetcher
dispatch_rows [] = acquiring 0
dispatch_rows (l ∷ ls) = dispatching l ls

-- The fetch loop once claimRound has returned.
abbrev pub after_claim : List Lease → Bool → Fetcher
after_claim [] stopped = if stopped then ended else sleeping
after_claim (l ∷ ls) stopped = dispatching l ls

-- What escalate reports.
unfoldable pub stranded : Inflight → Option ℕ
unfolding snapshot
stranded t = if length (snapshot t) == 0 then none else some (length (snapshot t))

abbrev pub push_all : List Lease → List Lease → List Lease
push_all [] claimed = claimed
push_all (l ∷ ls) claimed = push_all ls (l ∷ claimed)

-- The rows of a claim are of attempts that no claim has handed out before, and of different jobs.
abbrev pub NewLeases : List Lease → List Lease → Type 0
NewLeases rows claimed =
    All (λ l. All (λ old. l ≢ old) claimed) rows × Pairs (λ a b. a.id ≢ b.id) rows

-- A step of the pool's own goroutines. A claim may return any rows, no more than were asked for: also a job on an
-- attempt that a snooze gave back, and, from a driver that ignores its cancelled context, after the stop.
pub data Move (concurrency : ℕ) : Runner → Runner → Type 0 where
  takes :
      {p : Runner} (n : ℕ)
      → p.fetcher ≡ acquiring n
      → 0 < p.idle
      → n < concurrency
      → Move concurrency p (record p { idle = p.idle - 1; fetcher = acquiring (n + 1) })
  quits :
      {p : Runner}
      → p.fetcher ≡ acquiring 0
      → stopping p.drain ≡ true
      → Move concurrency p (record p { fetcher = ended })
  has_enough :
      {p : Runner} (n : ℕ)
      → p.fetcher ≡ acquiring n
      → 0 < n
      → (n ≡ concurrency) ⊎ (p.idle ≡ 0)
      → Move concurrency p (record p { fetcher = claiming n (not (stopping p.drain)) })
  claims :
      {p : Runner} (n : ℕ) (live : Bool) (rows : List Lease)
      → p.fetcher ≡ claiming n live
      → length rows ≤ n
      → Move concurrency p (record p {
        idle = p.idle + (n - length rows);
        fetcher = after_claim rows (stopping p.drain);
        inflight = add_all rows p.inflight;
        claimed = push_all rows p.claimed;
      })
  wakes :
      {p : Runner}
      → p.fetcher ≡ sleeping
      → Move concurrency p (record p { fetcher = if stopping p.drain then ended else acquiring 0 })
  hands :
      {p : Runner} (l : Lease) (ls : List Lease)
      → p.fetcher ≡ dispatching l ls
      → 0 < p.receiving
      → Move concurrency p (record p {
        fetcher = dispatch_rows ls;
        receiving = p.receiving - 1;
        running = l ∷ p.running;
        inflight = add l p.inflight;
      })
  abandons :
      {p : Runner} (l : Lease) (ls : List Lease)
      → p.fetcher ≡ dispatching l ls
      → stopping p.drain ≡ true
      → Move concurrency p (record p {
        idle = p.idle + suc (length ls);
        fetcher = ended;
        inflight = remove_all (l ∷ ls) (add l p.inflight);
      })
  finishes :
      {p : Runner} (l : Lease) (before after : List Lease)
      → p.running ≡ before ++ l ∷ after
      → Move concurrency p (record p {
        running = before ++ after;
        returning = p.returning + 1;
        inflight = remove l p.inflight;
      })
  frees :
      {p : Runner}
      → 0 < p.returning
      → p.idle < concurrency
      → Move concurrency p
          (record p { idle = p.idle + 1; returning = p.returning - 1; receiving = p.receiving + 1 })
  exits :
      {p : Runner}
      → p.fetcher ≡ ended
      → 0 < p.receiving
      → Move concurrency p (record p { receiving = p.receiving - 1; exited = p.exited + 1 })
  settles :
      {p : Runner}
      → p.drain ≡ waiting
      → p.fetcher ≡ ended
      → p.exited ≡ concurrency
      → Move concurrency p (record p { drain = joining none })
  leaves :
      {p : Runner}
      → stopping p.drain ≡ true
      → 0 < p.background
      → Move concurrency p (record p { background = p.background - 1 })
  stops_beating :
      {p : Runner}
      → heartbeat_stopped p.drain ≡ true
      → p.beating ≡ true
      → Move concurrency p (record p { beating = false })
  joins :
      {p : Runner} (v : Option ℕ)
      → p.drain ≡ joining v
      → p.background ≡ 0
      → p.beating ≡ false
      → Move concurrency p (record p { drain = drained v; job_live = false })

-- What comes from outside: Stop or the cancelled context of Start, and the end of Stop's budget.
pub data Signal : Runner → Runner → Type 0 where
  stops : {p : Runner} → p.drain ≡ serving → Signal p (record p { drain = waiting })
  expires :
      {p : Runner}
      → p.drain ≡ waiting
      → Signal p (record p {
        drain = joining (stranded p.inflight);
        job_live = length (snapshot p.inflight) == 0;
        expired = true;
      })

pub data Run (concurrency : ℕ) (p : Runner) : ℕ → Runner → Type 0 where
  here : Run concurrency p 0 p
  moves :
      {k : ℕ} {q r : Runner}
      → Run concurrency p k q
      → Move concurrency q r
      → Run concurrency p (suc k) r
  signals :
      {k : ℕ} {q r : Runner} → Run concurrency p k q → Signal q r → Run concurrency p (suc k) r

-- A round that began after the stop claims nothing, as with a driver that heeds its cancelled context.
abbrev pub HeedsMove : {c : ℕ} {p q : Runner} → Move c p q → Type 0
HeedsMove (claims n live rows at few) = (rows ≡ []) ⊎ (live ≡ true)
HeedsMove m = Unit

abbrev pub Heeds : {c : ℕ} {p : Runner} {k : ℕ} {q : Runner} → Run c p k q → Type 0
Heeds here = Unit
Heeds (moves r m) = Heeds r × HeedsMove m
Heeds (signals r m) = Heeds r

-- No attempt is handed out twice: no job was snoozed and claimed again.
abbrev pub FreshMove : {c : ℕ} {p q : Runner} → Move c p q → Type 0
FreshMove {p = p} (claims n live rows at few) = NewLeases rows p.claimed
FreshMove m = Unit

abbrev pub Fresh : {c : ℕ} {p : Runner} {k : ℕ} {q : Runner} → Run c p k q → Type 0
Fresh here = Unit
Fresh (moves r m) = Fresh r × FreshMove m
Fresh (signals r m) = Fresh r

-- The rows that the fetch loop has claimed and not handed over.
abbrev pub pending : Fetcher → List Lease
pending (acquiring n) = []
pending (claiming n live) = []
pending sleeping = []
pending (dispatching l ls) = l ∷ ls
pending ended = []

abbrev pub hand : Fetcher → ℕ
hand (acquiring n) = n
hand (claiming n live) = n
hand sleeping = 0
hand (dispatching l ls) = 0
hand ended = 0
