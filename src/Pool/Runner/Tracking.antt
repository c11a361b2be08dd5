-- ===== src/Pool/Runner/Tracking.antt =====
-- Which jobs of a running pool the heartbeat renews, and how long it and the handlers' context live.
use drover.Prelude.{
  ℕ, ◌≡◌, ◌≢◌, refl, sym, ap, subst, ◌∙◌, ◌⊎◌, Bool, true, false, List, [], ◌∷◌, ◌++◌, arith, inl,
  inr, Bool-cases, All, All-map, length,
}
use mathlib.Core.List.{append_assoc}
use drover.Driver.{Lease}
use drover.Inflight.{Inflight, add, remove}
use drover.Pool.{add_all}
use drover.Pool.Runner.{
  Fetcher, acquiring, claiming, sleeping, dispatching, ended, Runner, new_runner, Move, takes,
  quits, has_enough, claims, wakes, hands, abandons, finishes, frees, exits, settles, leaves,
  stops_beating, joins, Signal, stops, expires, Run, Fresh, FreshMove, here, moves, signals,
  dispatch_rows, after_claim, stopping, heartbeat_stopped, pending, push_all,
}
use drover.Pool.Runner.Books.{
  Newest, Tracked, Book, Tracked-add, claim_all, drop_all, drop_one, Book-move, Book-move_back,
  Newest-push_all,
}
use drover.Pool.Runner.Draining.{is_ended, Staffed, Run-Staffed}

-- The leases that the fetch loop or a worker has in hand.
abbrev pub in_hand : Runner → List Lease
in_hand p = pending p.fetcher ++ p.running

record Kept (p : Runner) : Type 0 where
  waits : All (Newest p.claimed) (pending p.fetcher)
  book : Book p.inflight p.claimed (in_hand p)

dispatch_rows-pending : (ls : List Lease) → pending (dispatch_rows ls) ≡ ls
dispatch_rows-pending [] = refl
dispatch_rows-pending (l ∷ ls) = refl

after_claim-pending : (ls : List Lease) (stopped : Bool) → pending (after_claim ls stopped) ≡ ls
after_claim-pending [] true = refl
after_claim-pending [] false = refl
after_claim-pending (l ∷ ls) stopped = refl

module _ {p : Runner} where
  -- A step that leaves the rows in hand, the claims and the set as they are.
  same_hands :
      (f : Fetcher) → Kept p → pending f ≡ pending p.fetcher → Kept (record p { fetcher = f })
  same_hands f k e = record {
    waits = subst (All (Newest p.claimed)) (sym e) k.waits;
    book = subst (λ ls. Book p.inflight p.claimed (ls ++ p.running)) (sym e) k.book;
  }

  held_as :
      {f : Fetcher}
      → Kept p
      → p.fetcher ≡ f
      → All (Newest p.claimed) (pending f) × Book p.inflight p.claimed (pending f ++ p.running)
  held_as k e = (
    subst (λ f. All (Newest p.claimed) (pending f)) e k.waits,
    subst (λ f. Book p.inflight p.claimed (pending f ++ p.running)) e k.book,
  )

re_add :
    (l : Lease) (t : Inflight) (claimed held : List Lease)
    → Newest claimed l
    → Book t claimed held
    → Book (add l t) claimed held
re_add l t claimed held new (tracked, old, apart) =
    (All-map (Tracked t claimed) (λ x h. Tracked-add t claimed l x new h) held tracked, old, apart)

Move-Kept : {c : ℕ} {p q : Runner} (m : Move c p q) → FreshMove m → Kept p → Kept q
Move-Kept (takes n at room few) new k = let (w, b) = held_as k at in record { waits = w; book = b }
Move-Kept (quits at stop) new k = let (w, b) = held_as k at in record { waits = w; book = b }
Move-Kept (has_enough n at some_token full) new k =
    let (w, b) = held_as k at in record { waits = w; book = b }
Move-Kept {p = p} (claims n live rows at few) new k =
    let (w, b) = held_as k at in
    let e = after_claim-pending rows (stopping p.drain) in
    record {
      waits =
          subst (All (Newest (push_all rows p.claimed))) (sym e)
            (Newest-push_all rows p.claimed new.1);
      book =
          subst (λ ls. Book (add_all rows p.inflight) (push_all rows p.claimed) (ls ++ p.running))
            (sym e) (claim_all rows p.inflight p.claimed p.running new b);
    }
Move-Kept {p = p} (wakes at) new k =
    let (w, b) = held_as k at in
    elim (Bool-cases (stopping p.drain)) [
      | inl e ↦ rw e (record { waits = w; book = b })
      | inr e ↦ rw e (record { waits = w; book = b })
    ]
Move-Kept {p = p} (hands l ls at free) new k =
    let (w, b) = held_as k at in
    let e = dispatch_rows-pending ls in
    record {
      waits = subst (All (Newest p.claimed)) (sym e) w.1;
      book =
          subst (λ rows. Book (add l p.inflight) p.claimed (rows ++ l ∷ p.running)) (sym e)
            (re_add l p.inflight p.claimed (ls ++ l ∷ p.running) w.0
              (Book-move_back p.inflight p.claimed ls p.running l b));
    }
Move-Kept {p = p} (abandons l ls at stop) new k =
    let (w, b) = held_as k at in
    record {
      waits = tt;
      book =
          drop_all (l ∷ ls) (add l p.inflight) p.claimed p.running
            (re_add l p.inflight p.claimed ((l ∷ ls) ++ p.running) w.0 b);
    }
Move-Kept {p = p} (finishes l before after e) new k = record {
  waits = k.waits;
  book =
      let rows = pending p.fetcher in
      subst (Book (remove l p.inflight) p.claimed) (append_assoc rows before after) (
        drop_one l p.inflight p.claimed ((rows ++ before) ++ after) (
          Book-move p.inflight p.claimed (rows ++ before) after l (
            subst (Book p.inflight p.claimed)
              (ap (λ ls. rows ++ ls) e ∙ sym (append_assoc rows before (l ∷ after))) k.book)));
}
Move-Kept (frees some_worker room) new k = record { waits = k.waits; book = k.book }
Move-Kept (exits at free) new k = record { waits = k.waits; book = k.book }
Move-Kept (settles at e n) new k = record { waits = k.waits; book = k.book }
Move-Kept (leaves stop some_left) new k = record { waits = k.waits; book = k.book }
Move-Kept (stops_beating at on) new k = record { waits = k.waits; book = k.book }
Move-Kept (joins v at none_left off) new k = record { waits = k.waits; book = k.book }

Signal-Kept : {p q : Runner} → Signal p q → Kept p → Kept q
Signal-Kept (stops at) k = record { waits = k.waits; book = k.book }
Signal-Kept (expires at) k = record { waits = k.waits; book = k.book }

Run-Kept : {c b k : ℕ} {p : Runner} (r : Run c (new_runner c b) k p) → Fresh r → Kept p
Run-Kept here new = record { waits = tt; book = (tt, tt, tt) }
Run-Kept (moves r m) new = Move-Kept m new.1 (Run-Kept r new.0)
Run-Kept (signals r m) new = Signal-Kept m (Run-Kept r new)

-- Unless the budget ran out, the background is dismissed only when every worker has exited.
record Supported (c : ℕ) (p : Runner) : Type 0 where
  beats : (p.beating ≡ true) ⊎ (heartbeat_stopped p.drain ≡ true)
  lives : (p.job_live ≡ true) ⊎ (heartbeat_stopped p.drain ≡ true)
  emptied :
      (heartbeat_stopped p.drain ≡ false)
      ⊎ (p.expired ≡ true)
      ⊎ ((is_ended p.fetcher ≡ true) × (p.exited ≡ c))

Move-Supported :
    {c b : ℕ} {p q : Runner} → Move c p q → Staffed c b p → Supported c p → Supported c q
Move-Supported (takes n at room few) f s = ground arith
Move-Supported (quits at stop) f s = ground arith
Move-Supported (has_enough n at some_token full) f s = ground arith
Move-Supported (claims n live rows at few) f s = ground arith
Move-Supported (wakes at) f s = ground arith
Move-Supported (hands l ls at free) f s = ground arith
Move-Supported (abandons l ls at stop) f s = ground arith
Move-Supported (finishes l before after e) f s = ground arith
Move-Supported (frees some_worker room) f s = ground arith
Move-Supported (exits at free) f s = ground arith
Move-Supported (settles at e n) f s = ground arith
Move-Supported (leaves stop some_left) f s = ground arith
Move-Supported (stops_beating at on) f s = ground arith
Move-Supported (joins v at none_left off) f s = ground arith

Signal-Supported : {c : ℕ} {p q : Runner} → Signal p q → Supported c p → Supported c q
Signal-Supported (stops at) s = ground arith
Signal-Supported (expires at) s = ground arith

Run-Supported : {c b k : ℕ} {p : Runner} → Run c (new_runner c b) k p → Supported c p
Run-Supported here = ground arith
Run-Supported (moves r m) = Move-Supported m (Run-Staffed r) (Run-Supported r)
Run-Supported (signals r m) = Signal-Supported m (Run-Supported r)

nothing_in_hand :
    (ls : List Lease) (f : Fetcher) → length ls ≡ 0 → is_ended f ≡ true → pending f ++ ls ≡ []
nothing_in_hand [] ended h e = refl
nothing_in_hand [] (acquiring n) h e = cc
nothing_in_hand [] (claiming n live) h e = cc
nothing_in_hand [] sleeping h e = cc
nothing_in_hand [] (dispatching l ls) h e = cc
nothing_in_hand (x ∷ xs) f h e = absurd (omega arith)

-- In a running pool where no attempt is handed out twice, from the claim until its run is over, a job is tracked on
-- its attempt, unless the pool has claimed the job again since. As long as a claimed job is in hand, the heartbeat runs and the handlers'
-- context is live, also while the pool shuts down, unless the shutdown's budget ran out.
pub Run-Tracked :
    {c b k : ℕ} {p : Runner}
    → (r : Run c (new_runner c b) k p) → Fresh r
    → All (Tracked p.inflight p.claimed) (in_hand p)
      × (p.expired ≡ false → in_hand p ≢ [] → (p.beating ≡ true) × (p.job_live ≡ true))
Run-Tracked {p = p} r new =
    let support = Run-Supported r in
    let staff = Run-Staffed r in
    (
      (Run-Kept r new).book.0,
      λ on some_job. elim (Bool-cases (heartbeat_stopped p.drain)) [
        | inr going ↦ ground arith
        | inl over ↦
            absurd (some_job (nothing_in_hand p.running p.fetcher (ground arith) (ground arith)))
      ],
    )
