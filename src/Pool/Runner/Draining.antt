-- ===== src/Pool/Runner/Draining.antt =====
-- The pool never deadlocks: some goroutine can go on unless the shutdown is over.
use drover.Prelude.{
  ℕ, zero, suc, ◌+◌, ◌≡◌, refl, ap, ◌≤◌, ◌<◌, ◌⊎◌, Bool, true, false, List, [], ◌∷◌, Option, arith,
  length, inl, inr, length-append, Bool-cases, ltb, ◌==◌, ◌&&◌,
}
use drover.Driver.{Lease}
use drover.Pool.Slots.{tokens}
use drover.Pool.Runner.{
  Fetcher, acquiring, claiming, sleeping, dispatching, ended, Drain, serving, waiting, joining,
  drained, Runner, new_runner, Move, takes, quits, has_enough, claims, wakes, hands, abandons,
  finishes, frees, exits, settles, leaves, stops_beating, joins, Signal, stops, expires, Run, here,
  moves, signals, dispatch_rows, after_claim, stopping,
}
use drover.Pool.Runner.Tokens.{slots_of, HasToken}

abbrev pub is_ended : Fetcher → Bool
is_ended (acquiring n) = false
is_ended (claiming n live) = false
is_ended sleeping = false
is_ended (dispatching l ls) = false
is_ended ended = true

-- Every worker is in one place; workers exit only when the fetch loop has returned, which it does only
-- when the pool is stopped.
pub record Staffed (c b : ℕ) (p : Runner) : Type 0 where
  pub workers : p.receiving + length p.running + p.returning + p.exited ≡ c
  pub gone : (p.exited ≡ 0) ⊎ (is_ended p.fetcher ≡ true)
  pub retired : (is_ended p.fetcher ≡ false) ⊎ (stopping p.drain ≡ true)
  pub helpers : p.background ≤ b

dispatch_rows-is_ended : (ls : List Lease) → is_ended (dispatch_rows ls) ≡ false
dispatch_rows-is_ended [] = refl
dispatch_rows-is_ended (l ∷ ls) = refl

after_claim-is_ended :
    (ls : List Lease) (stopped : Bool)
    → (is_ended (after_claim ls stopped) ≡ false) ⊎ (stopped ≡ true)
after_claim-is_ended [] true = inr refl
after_claim-is_ended [] false = inl refl
after_claim-is_ended (l ∷ ls) stopped = inl refl

Move-Staffed : {c b : ℕ} {p q : Runner} → Move c p q → Staffed c b p → Staffed c b q
Move-Staffed (takes n at room few) s = ground arith
Move-Staffed (quits at stop) s = ground arith
Move-Staffed (has_enough n at some_token full) s = ground arith
Move-Staffed {p = p} (claims n live rows at few) s =
    ground (arith, after_claim-is_ended rows (stopping p.drain))
Move-Staffed {p = p} (wakes at) s = elim (Bool-cases (stopping p.drain)) [
  | inl e ↦ ground arith
  | inr e ↦ ground arith
]
Move-Staffed (hands l ls at free) s = ground (arith, dispatch_rows-is_ended ls)
Move-Staffed (abandons l ls at stop) s = ground arith
Move-Staffed (finishes l before after e) s =
    ground (arith, ap length e, length-append before after, length-append before (l ∷ after))
Move-Staffed (frees some_worker room) s = ground arith
Move-Staffed (exits at free) s = ground arith
Move-Staffed (settles at e n) s = ground arith
Move-Staffed (leaves stop some_left) s = ground arith
Move-Staffed (stops_beating at on) s = ground arith
Move-Staffed (joins v at none_left off) s = ground arith

Signal-Staffed : {c b : ℕ} {p q : Runner} → Signal p q → Staffed c b p → Staffed c b q
Signal-Staffed (stops at) s = ground arith
Signal-Staffed (expires at) s = ground arith

pub Run-Staffed : {c b k : ℕ} {p : Runner} → Run c (new_runner c b) k p → Staffed c b p
Run-Staffed here = ground arith
Run-Staffed (moves r m) = Move-Staffed m (Run-Staffed r)
Run-Staffed (signals r m) = Signal-Staffed m (Run-Staffed r)

abbrev pub CanMove : ℕ → Runner → Type 0
CanMove c p = (q : Runner) × Move c p q

-- A worker that is not waiting can go on.
work : {c : ℕ} (p : Runner) → p.idle < c → 0 < length p.running + p.returning → CanMove c p
work {c} p room busy = go p.running refl
  where
    go : (ls : List Lease) → p.running ≡ ls → CanMove c p
    go [] e = (_, frees (ground arith) room)
    go (l ∷ ls) e = (_, finishes l [] ls e)

finish_drain :
    {c : ℕ} (p : Runner) (d : Drain)
    → p.drain ≡ d
    → stopping d ≡ true
    → p.fetcher ≡ ended
    → p.exited ≡ c
    → ((v : Option ℕ) × (p.drain ≡ drained v)) ⊎ CanMove c p
finish_drain p serving e stop at all = cc
finish_drain p waiting e stop at all = inr (_, settles e at all)
finish_drain p (drained v) e stop at all = inl (v, e)
finish_drain p (joining v) e stop at all = elim (Bool-cases (p.background == 0)) [
  | inr more ↦ inr (_, leaves (ground arith) (ground arith))
  | inl no_more ↦ elim (Bool-cases p.beating) [
    | inl on ↦ inr (_, stops_beating (ground arith) on)
    | inr off ↦ inr (_, joins v e (ground arith) off)
  ]
]

pub fetch_or_work :
    {c b : ℕ} (p : Runner) (f : Fetcher)
    → 0 < c
    → p.fetcher ≡ f
    → HasToken p.fetcher
    → Staffed c b p
    → tokens (slots_of p) ≡ c
    → ((v : Option ℕ) × (p.drain ≡ drained v)) ⊎ CanMove c p
fetch_or_work p (acquiring zero) some_worker at token s all = elim (Bool-cases (ltb 0 p.idle)) [
  | inl free ↦ inr (_, takes 0 at (ground arith) some_worker)
  | inr none_free ↦ inr (work p (ground arith) (ground arith))
]
fetch_or_work {c} p (acquiring (suc n)) some_worker at token s all =
    elim (Bool-cases (ltb 0 p.idle && ltb (suc n) c)) [
      | inl more ↦ inr (_, takes (suc n) at (ground arith) (ground arith))
      | inr enough ↦ inr (_, has_enough (suc n) at (omega arith) (ground arith))
    ]
fetch_or_work p (claiming n live) some_worker at token s all =
    inr (_, claims n live [] at (omega arith))
fetch_or_work p sleeping some_worker at token s all = inr (_, wakes at)
fetch_or_work p (dispatching l ls) some_worker at token s all =
    elim (Bool-cases (ltb 0 p.receiving)) [
      | inl free ↦ inr (_, hands l ls at (ground arith))
      | inr none_free ↦ inr (work p (ground arith) (ground arith))
    ]
fetch_or_work p ended some_worker at token s all =
    elim (Bool-cases (ltb 0 (length p.running + p.returning))) [
      | inl busy ↦ inr (work p (ground arith) (ground arith))
      | inr idle ↦ elim (Bool-cases (ltb 0 p.receiving)) [
        | inl left ↦ inr (_, exits at (ground arith))
        | inr all_left ↦ finish_drain p p.drain refl (ground arith) at (ground arith)
      ]
    ]
