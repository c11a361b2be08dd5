-- ===== src/Pool/Runner/Books.antt =====
-- The leases in a pool's hands against the client's set, while leases are claimed, handed over and dropped.
use drover.Prelude.{
  ℕ, ◌≡◌, ◌≢◌, refl, sym, ap, ◌∙◌, ◌⊎◌, List, [], ◌∷◌, ◌++◌, Option, none, some, arith, inl, inr,
  if◌then◌else◌, ◌==◌, Bool-cases, All, Pairs, All-map, All-both, All-move, All-move_back,
  Pairs-move, Pairs-move_back,
}
use drover.Driver.{Lease}
use drover.Inflight.{Inflight, attempt_of, add, remove}
use drover.Inflight.Laws.{attempt_of-add, attempt_of-delete}
use drover.Pool.{add_all, remove_all}
use drover.Pool.Runner.{push_all, NewLeases}

-- The attempt of the last claim of a job.
abbrev pub newest : ℕ → List Lease → Option ℕ
newest id [] = none
newest id (l ∷ ls) = if l.id == id then some l.attempt else newest id ls

-- The lease is tracked, if it is of the last claim of its job.
abbrev pub Tracked : Inflight → List Lease → Lease → Type 0
Tracked t claimed l = newest l.id claimed ≡ some l.attempt → attempt_of l.id t ≡ some l.attempt

abbrev pub Newest : List Lease → Lease → Type 0
Newest claimed l = newest l.id claimed ≡ some l.attempt

abbrev pub Claimed : List Lease → Lease → Type 0
Claimed [] l = ⊥
Claimed (x ∷ xs) l = (l ≡ x) ⊎ Claimed xs l

-- What is kept of the leases in hand: the last claim of a job is tracked, each was claimed, and none is
-- in hand twice.
abbrev pub Book : Inflight → List Lease → List Lease → Type 0
Book t claimed held =
    All (Tracked t claimed) held × All (Claimed claimed) held × Pairs (λ a b. a ≢ b) held

pub Tracked-add :
    (t : Inflight) (claimed : List Lease) (x l : Lease)
    → Newest claimed x
    → Tracked t claimed l
    → Tracked (add x t) claimed l
Tracked-add t claimed x l new h e = elim (Bool-cases (x.id == l.id)) [
  | inr other ↦ rw (attempt_of-add l.id x t) (rw other (h e))
  | inl same ↦
      let ids : x.id ≡ l.id = ground arith in
      rw (attempt_of-add l.id x t) (rw same (sym new ∙ ap (λ i. newest i claimed) ids ∙ e))
]

Tracked-remove :
    (t : Inflight) (claimed : List Lease) (x l : Lease)
    → l ≢ x
    → Tracked t claimed l
    → Tracked (remove x t) claimed l
unfolding remove
Tracked-remove t claimed x l other h e = ground (arith, h e, attempt_of-delete l.id x.id t)

Tracked-claim :
    (t : Inflight) (claimed : List Lease) (x l : Lease)
    → Tracked t claimed l
    → Tracked (add x t) (x ∷ claimed) l
Tracked-claim t claimed x l h e = elim (Bool-cases (x.id == l.id)) [
  | inr other ↦ rw (attempt_of-add l.id x t) (rw other (h (ground arith)))
  | inl same ↦ rw (attempt_of-add l.id x t) (rw same (ground arith))
]

Claimed-ne :
    (x l : Lease) (claimed : List Lease) → All (λ old. x ≢ old) claimed → Claimed claimed l → x ≢ l
Claimed-ne x l [] new old same = elim old [ ]
Claimed-ne x l (y ∷ ys) new (inl e) same = new.0 (same ∙ e)
Claimed-ne x l (y ∷ ys) new (inr old) same = Claimed-ne x l ys new.1 old same

pub claim_one :
    (x : Lease) (t : Inflight) (claimed held : List Lease)
    → All (λ old. x ≢ old) claimed
    → Book t claimed held
    → Book (add x t) (x ∷ claimed) (x ∷ held)
claim_one x t claimed held new (tracked, old, apart) = (
  (
    (λ e. rw (attempt_of-add x.id x t) (ground arith)),
    All-map (Tracked t claimed) (Tracked-claim t claimed x) held tracked,
  ),
  (inl refl, All-map (Claimed claimed) (λ l o. inr o) held old),
  (All-map (Claimed claimed) (λ l o. Claimed-ne x l claimed new o) held old, apart),
)

pub Book-move :
    (t : Inflight) (claimed xs ys : List Lease) (x : Lease)
    → Book t claimed (xs ++ x ∷ ys)
    → Book t claimed (x ∷ (xs ++ ys))
Book-move t claimed xs ys x (a, b, d) = (
  All-move (Tracked t claimed) xs ys x a,
  All-move (Claimed claimed) xs ys x b,
  Pairs-move ◌≢◌ (λ p q h e. h (sym e)) xs ys x d,
)

pub Book-move_back :
    (t : Inflight) (claimed xs ys : List Lease) (x : Lease)
    → Book t claimed (x ∷ (xs ++ ys))
    → Book t claimed (xs ++ x ∷ ys)
Book-move_back t claimed xs ys x (a, b, d) = (
  All-move_back (Tracked t claimed) xs ys x a,
  All-move_back (Claimed claimed) xs ys x b,
  Pairs-move_back ◌≢◌ (λ p q h e. h (sym e)) xs ys x d,
)

-- An attempt that is over is no longer in hand.
pub drop_one :
    (x : Lease) (t : Inflight) (claimed held : List Lease)
    → Book t claimed (x ∷ held)
    → Book (remove x t) claimed held
drop_one x t claimed held (tracked, old, apart) = (
  All-map (λ l. (x ≢ l) × Tracked t claimed l)
      (λ l h. Tracked-remove t claimed x l (λ e. h.0 (sym e)) h.1) held
      (All-both (x ≢◌) (Tracked t claimed) held apart.0 tracked.1),
  old.1,
  apart.1,
)

pub drop_all :
    (xs : List Lease) (t : Inflight) (claimed held : List Lease)
    → Book t claimed (xs ++ held)
    → Book (remove_all xs t) claimed held
unfolding remove_all
drop_all [] t claimed held b = b
drop_all (x ∷ xs) t claimed held b =
    drop_all xs (remove x t) claimed held (drop_one x t claimed (xs ++ held) b)

pub claim_all :
    (rows : List Lease) (t : Inflight) (claimed held : List Lease)
    → NewLeases rows claimed
    → Book t claimed held
    → Book (add_all rows t) (push_all rows claimed) (rows ++ held)
unfolding add_all
claim_all [] t claimed held new b = b
claim_all (x ∷ xs) t claimed held (new, apart) b =
    Book-move (add_all xs (add x t)) (push_all xs (x ∷ claimed)) xs held x (
      claim_all xs (add x t) (x ∷ claimed) (x ∷ held) (fresh, apart.1)
        (claim_one x t claimed held new.0 b))
  where
    fresh : All (λ l. All (λ old. l ≢ old) (x ∷ claimed)) xs
    fresh =
        All-map (λ l. (x.id ≢ l.id) × All (λ old. l ≢ old) claimed)
          (λ l h. ((λ e. h.0 (ap (λ (y : Lease). y.id) (sym e))), h.1)) xs
          (All-both (λ l. x.id ≢ l.id) (λ l. All (λ old. l ≢ old) claimed) xs apart.0 new.1)

newest-push_all :
    (id : ℕ) (rows claimed : List Lease)
    → All (λ (l : Lease). id ≢ l.id) rows
    → newest id (push_all rows claimed) ≡ newest id claimed
newest-push_all id [] claimed h = refl
newest-push_all id (l ∷ ls) claimed h =
    newest-push_all id ls (l ∷ claimed) h.1 ∙ ground (arith, h.0)

pub Newest-push_all :
    (rows claimed : List Lease)
    → Pairs (λ (a b : Lease). a.id ≢ b.id) rows
    → All (Newest (push_all rows claimed)) rows
Newest-push_all [] claimed h = tt
Newest-push_all (l ∷ ls) claimed (h, hs) =
    (newest-push_all l.id ls (l ∷ claimed) h ∙ ground arith, Newest-push_all ls (l ∷ claimed) hs)
