-- ===== src/Pool/Runner/Tokens.antt =====
-- The running pool keeps to the slot tokens' machine of Pool.Slots.
use drover.Prelude.{
  ℕ, ◌+◌, ◌≡◌, refl, ap, subst, ◌<◌, Bool, true, false, List, [], ◌∷◌, arith, length, inl, inr,
  length-append, Bool-cases,
}
use drover.Driver.{Lease}
use drover.Pool.Slots
use drover.Pool.Slots.{
  Slots, tokens, all_idle, take_slot, release_slots, hand_over, finish, give_up,
}
use drover.Pool.Runner.{
  Fetcher, acquiring, claiming, sleeping, dispatching, ended, Runner, new_runner, Move, takes,
  quits, has_enough, claims, wakes, hands, abandons, finishes, frees, exits, settles, leaves,
  stops_beating, joins, Signal, stops, expires, Run, here, moves, signals, pending, hand,
  dispatch_rows, after_claim, stopping,
}

-- The tokens of a running pool.
abbrev pub slots_of : Runner → Slots
slots_of p = record {
  idle = p.idle;
  held = hand p.fetcher;
  pending = length (pending p.fetcher);
  busy = length p.running + p.returning;
}

-- A claim is made with a token.
abbrev pub HasToken : Fetcher → Type 0
HasToken (claiming n live) = 0 < n
HasToken (acquiring n) = Unit
HasToken sleeping = Unit
HasToken (dispatching l ls) = Unit
HasToken ended = Unit

dispatch_rows-hand :
    (ls : List Lease)
    → (hand (dispatch_rows ls) ≡ 0)
      × (pending (dispatch_rows ls) ≡ ls)
      × HasToken (dispatch_rows ls)
dispatch_rows-hand [] = (refl, refl, tt)
dispatch_rows-hand (l ∷ ls) = (refl, refl, tt)

after_claim-hand :
    (ls : List Lease) (stopped : Bool)
    → (hand (after_claim ls stopped) ≡ 0)
      × (pending (after_claim ls stopped) ≡ ls)
      × HasToken (after_claim ls stopped)
after_claim-hand [] true = (refl, refl, tt)
after_claim-hand [] false = (refl, refl, tt)
after_claim-hand (l ∷ ls) stopped = (refl, refl, tt)

abbrev Kept : ℕ → Runner → Type 0
Kept c p = Slots.Reached c (slots_of p) × HasToken p.fetcher

module _ {c : ℕ} where
  advance :
      {s t : Slots} → Slots.Reached c s → Slots.Step c s t → (u : Slots) → t ≡ u → Slots.Reached c u
  advance r step u e = subst (Slots.Reached c) e (Slots.next r step)

  same : {s : Slots} → Slots.Reached c s → (u : Slots) → s ≡ u → Slots.Reached c u
  same r u e = subst (Slots.Reached c) e r

  Move-Kept : {p q : Runner} → Move c p q → Kept c p → Kept c q
  unfolding take_slot release_slots hand_over finish give_up
  Move-Kept {p} {q} (takes n at room few) (r, h) =
      (advance r (Slots.takes room (ground arith) (ground arith)) (slots_of q) (ground arith), tt)
  Move-Kept {p} {q} (quits at stop) (r, h) = (same r (slots_of q) (ground arith), tt)
  Move-Kept {p} {q} (has_enough n at some_token full) (r, h) =
      (same r (slots_of q) (ground arith), some_token)
  Move-Kept {p} {q} (claims n live rows at few) (r, h) =
      let (empty, rest, token) = after_claim-hand rows (stopping p.drain) in
      (
        advance r (Slots.claims (length rows) (ground arith) (ground arith) (ground arith))
            (slots_of q) (ground arith),
        token,
      )
  Move-Kept {p} {q} (wakes at) (r, h) = elim (Bool-cases (stopping p.drain)) [
    | inl e ↦ rw e (same r _ (ground arith), tt)
    | inr e ↦ rw e (same r _ (ground arith), tt)
  ]
  Move-Kept {p} {q} (hands l ls at free) (r, h) =
      let (empty, rest, token) = dispatch_rows-hand ls in
      (advance r (Slots.hands (ground arith)) (slots_of q) (ground arith), token)
  Move-Kept {p} {q} (abandons l ls at stop) (r, h) =
      (advance r Slots.gives_up (slots_of q) (ground arith), tt)
  Move-Kept {p} {q} (finishes l before after e) (r, h) = (
    same r (slots_of q)
        (ground (arith, ap length e, length-append before after, length-append before (l ∷ after))),
    h,
  )
  Move-Kept {p} {q} (frees some_worker room) (r, h) =
      (advance r (Slots.finishes (ground arith)) (slots_of q) (ground arith), h)
  Move-Kept (exits at free) k = k
  Move-Kept (settles at e n) k = k
  Move-Kept (leaves stop some_left) k = k
  Move-Kept (stops_beating at on) k = k
  Move-Kept (joins v at none_left off) k = k

  Signal-Kept : {p q : Runner} → Signal p q → Kept c p → Kept c q
  Signal-Kept (stops at) k = k
  Signal-Kept (expires at) k = k

  pub Run-Kept : {b k : ℕ} {p : Runner} → Run c (new_runner c b) k p → Kept c p
  Run-Kept here = (Slots.start, tt)
  Run-Kept (moves r m) = Move-Kept m (Run-Kept r)
  Run-Kept (signals r m) = Signal-Kept m (Run-Kept r)

-- Forgetting which jobs are claimed, every run of a pool is a run of the machine of slot tokens.
pub Run-Reached :
    {c b k : ℕ} {p : Runner} → Run c (new_runner c b) k p → Slots.Reached c (slots_of p)
Run-Reached r = (Run-Kept r).0
