-- ===== src/Pool/Runner/Ending.antt =====
-- A shutdown ends: after the stop every step brings the pool closer to the end.
use drover.Prelude.{
  ℕ, suc, ◌+◌, ◌-◌, ◌*◌, ◌≡◌, refl, ap, ◌≤◌, ◌<◌, ◌⊎◌, Bool, true, false, List, [], ◌∷◌, Option,
  arith, length, inl, inr, if◌then◌else◌, length-append, Bool-cases,
}
use drover.Driver.{Lease}
use drover.Pool.Slots.{tokens, Reached-tokens}
use drover.Pool.Runner.{
  Fetcher, acquiring, claiming, sleeping, dispatching, ended, Drain, serving, waiting, joining,
  drained, Runner, new_runner, Move, takes, quits, has_enough, claims, wakes, hands, abandons,
  finishes, frees, exits, settles, leaves, stops_beating, joins, Signal, stops, expires, Run, Heeds,
  HeedsMove, here, moves, signals, dispatch_rows, after_claim, stopping, hand, pending,
}
use drover.Pool.Runner.Tokens.{slots_of, Run-Kept}
use drover.Pool.Runner.Draining.{Staffed, CanMove, fetch_or_work, Run-Staffed}

-- How much the fetch loop has left to do once the pool is stopped.
abbrev fetch_left : ℕ → Fetcher → ℕ
fetch_left c (acquiring n) = 2 + (c - n)
fetch_left c (claiming n false) = 1
fetch_left c (claiming n true) = 4 + c + 3 * n
fetch_left c sleeping = 1
fetch_left c (dispatching l ls) = 6 + c + 3 * length ls
fetch_left c ended = 0

abbrev drain_left : Drain → ℕ
drain_left serving = 2
drain_left waiting = 2
drain_left (joining v) = 1
drain_left (drained v) = 0

abbrev left : ℕ → Runner → ℕ
left c p =
    fetch_left c p.fetcher
    + (3 * length p.running + 2 * p.returning + p.receiving)
    + (drain_left p.drain + p.background + (if p.beating then 1 else 0))

dispatch_rows-left :
    (c : ℕ) (ls : List Lease) → fetch_left c (dispatch_rows ls) ≤ 3 + c + 3 * length ls
dispatch_rows-left c [] = omega arith
dispatch_rows-left c (l ∷ ls) = omega arith

after_claim-left :
    (c n : ℕ) (live : Bool) (ls : List Lease)
    → length ls ≤ n
    → (ls ≡ []) ⊎ (live ≡ true)
    → fetch_left c (after_claim ls true) < fetch_left c (claiming n live)
after_claim-left c n true [] few early = omega arith
after_claim-left c n false [] few early = omega arith
after_claim-left c n true (l ∷ ls) few early = omega arith
after_claim-left c n false (l ∷ ls) few (inl e) = cc
after_claim-left c n false (l ∷ ls) few (inr e) = cc

Move-left :
    {c : ℕ} {p q : Runner}
    → (m : Move c p q) → HeedsMove m
    → stopping p.drain ≡ true
    → (left c q < left c p) × (stopping q.drain ≡ true)
Move-left (takes n at room few) heeds on = ground arith
Move-left (quits at stop) heeds on = ground arith
Move-left (has_enough n at some_token full) heeds on = ground arith
Move-left {c} (claims n live rows at few) heeds on =
    ground (arith, after_claim-left c n live rows few heeds)
Move-left (wakes at) heeds on = ground arith
Move-left {c} (hands l ls at free) heeds on = ground (arith, dispatch_rows-left c ls)
Move-left (abandons l ls at stop) heeds on = ground arith
Move-left (finishes l before after e) heeds on =
    ground (arith, ap length e, length-append before after, length-append before (l ∷ after))
Move-left (frees some_worker room) heeds on = ground arith
Move-left (exits at free) heeds on = ground arith
Move-left (settles at e n) heeds on = ground arith
Move-left (leaves stop some_left) heeds on = ground arith
Move-left (stops_beating at beats) heeds on = ground arith
Move-left (joins v at none_left off) heeds on = ground arith

Signal-left :
    (c : ℕ) {p q : Runner}
    → Signal p q
    → stopping p.drain ≡ true
    → (left c q < left c p) × (stopping q.drain ≡ true)
Signal-left c (stops at) on = ground arith
Signal-left c (expires at) on = ground arith

Run-left :
    {c : ℕ} {p : Runner} {k : ℕ} {q : Runner}
    → (r : Run c p k q) → Heeds r
    → stopping p.drain ≡ true
    → (k + left c q ≤ left c p) × (stopping q.drain ≡ true)
Run-left here heed on = (omega arith, on)
Run-left (moves r m) heed on =
    let (less, on') = Run-left r heed.0 on in
    let (step, on'') = Move-left m heed.1 on' in (omega arith, on'')
Run-left {c = c} (signals r m) heed on =
    let (less, on') = Run-left r heed on in
    let (step, on'') = Signal-left c m on' in (omega arith, on'')

Run-Run :
    {c j : ℕ} {p q : Runner} {k : ℕ} {r : Runner}
    → Run c p j q
    → Run c q k r
    → (n : ℕ) × Run c p n r
Run-Run {j = j} r here = (j, r)
Run-Run r (moves s m) = let (n, t) = Run-Run r s in (suc n, moves t m)
Run-Run r (signals s m) = let (n, t) = Run-Run r s in (suc n, signals t m)

fetch_left-le :
    (c : ℕ) (f : Fetcher) → hand f ≤ c → length (pending f) ≤ c → fetch_left c f ≤ 4 + 4 * c
fetch_left-le c (acquiring k) h h' = omega arith
fetch_left-le c (claiming k true) h h' = omega arith
fetch_left-le c (claiming k false) h h' = omega arith
fetch_left-le c sleeping h h' = omega arith
fetch_left-le c (dispatching l ls) h h' = omega arith
fetch_left-le c ended h h' = omega arith

drain_left-le : (d : Drain) → drain_left d ≤ 2
drain_left-le serving = omega arith
drain_left-le waiting = omega arith
drain_left-le (joining v) = omega arith
drain_left-le (drained v) = omega arith

left-le :
    (c b : ℕ) (p : Runner) → tokens (slots_of p) ≡ c → Staffed c b p → left c p ≤ 7 * c + b + 7
left-le c b p all s =
    let fetch = fetch_left-le c p.fetcher (omega arith) (omega arith) in
    elim (Bool-cases p.beating) [
      | inl on ↦ ground (arith, drain_left-le p.drain)
      | inr off ↦ ground (arith, drain_left-le p.drain)
    ]

-- However the goroutines interleave, a pool with a worker is never stuck: as long as drain has not returned, some
-- goroutine can go on, where the end of a running handler is a step, which the handler may delay for ever. Once the
-- pool is stopped, and if the rounds that begin after that claim nothing, as with a driver that heeds its cancelled
-- context, it makes at most a fixed number of steps.
pub stop-Ends :
    {c b j k : ℕ} {p q : Runner}
    → 0 < c
    → Run c (new_runner c b) j p
    → (s : Run c p k q) → Heeds s
    → (((v : Option ℕ) × (q.drain ≡ drained v)) ⊎ CanMove c q)
      × (stopping p.drain ≡ true → k ≤ 7 * c + b + 7)
stop-Ends {c} {b} {p = p} {q} some_worker r s heed =
    let (n, t) = Run-Run r s in
    let (reached, token) = Run-Kept t in
    let (begun, _) = Run-Kept r in
    (
      fetch_or_work q q.fetcher some_worker refl token (Run-Staffed t) (Reached-tokens reached).0,
      λ on.
          omega
            (arith, (Run-left s heed on).0, left-le c b p (Reached-tokens begun).0 (Run-Staffed r)),
    )
