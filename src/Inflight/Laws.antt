-- ===== src/Inflight/Laws.antt =====
-- The in-flight set as a map from job id to attempt.
use drover.Prelude.{
  ℕ, ◌≡◌, refl, ◌≢◌, true, [], ◌∷◌, none, some, arith, ◌==◌, leb, if◌then◌else◌, Pairs, Perm,
  sort_by-perm, sort_by-Pairs, TotalOrder,
}
use drover.Driver.{Lease}
use drover.Inflight.{Inflight, attempt_of, add, delete, remove, by_id, snapshot}

pub attempt_of-add :
    (id : ℕ) (lease : Lease) (ls : Inflight)
    → attempt_of id (add lease ls)
      ≡ (if lease.id == id then some lease.attempt else attempt_of id ls)
unfolding attempt_of add
attempt_of-add id lease [] = refl
attempt_of-add id lease (l ∷ ls) = ground (arith, attempt_of-add id lease ls)

pub attempt_of-delete :
    (id k : ℕ) (ls : Inflight)
    → attempt_of id (delete k ls) ≡ (if k == id then none else attempt_of id ls)
unfolding attempt_of delete
attempt_of-delete id k [] = ground arith
attempt_of-delete id k (l ∷ ls) = ground (arith, attempt_of-delete id k ls)

-- A tracked lease is the one for its job from then on; untracking a lease forgets its job only if the
-- job is tracked on the attempt of that lease, so a finishing attempt never untracks a later claim; and
-- neither touches another job.
pub attempt_of-add-remove :
    (id : ℕ) (lease : Lease) (ls : Inflight)
    → (attempt_of id (add lease ls)
        ≡ (if lease.id == id then some lease.attempt else attempt_of id ls))
      × (attempt_of lease.id ls ≡ some lease.attempt → attempt_of lease.id (remove lease ls) ≡ none)
      × (attempt_of lease.id ls ≢ some lease.attempt → remove lease ls ≡ ls)
      × (lease.id ≢ id → attempt_of id (remove lease ls) ≡ attempt_of id ls)
unfolding remove
attempt_of-add-remove id lease ls = (
  attempt_of-add id lease ls,
  (λ h. ground (arith, attempt_of-delete lease.id lease.id ls)),
  (λ h. ground arith),
  λ h. ground (arith, attempt_of-delete id lease.id ls),
)

by_id-TotalOrder : TotalOrder Lease by_id
by_id-TotalOrder = record { trans = λ x y z p q. ground arith; total = λ x y p. ground arith }

-- A snapshot lists every tracked lease, each as often as it is tracked, in ascending order of id.
pub snapshot-sorted :
    (ls : Inflight) → Perm (snapshot ls) ls × Pairs (λ a b. leb a.id b.id ≡ true) (snapshot ls)
unfolding snapshot
snapshot-sorted ls = (sort_by-perm by_id ls, sort_by-Pairs by_id by_id-TotalOrder ls)
