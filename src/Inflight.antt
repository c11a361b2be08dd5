-- ===== src/Inflight.antt =====
-- inflight.go: the leases that a client is executing under. `attempts map[int64]int` is a list of
-- leases, at most one for an id.
pub mod Laws
use drover.Prelude.{
  ℕ, Bool, false, List, [], ◌∷◌, Option, none, some, ◌==◌, leb, if◌then◌else◌, sort_by,
}
use drover.Driver.{Lease}

abbrev pub Inflight : Type 0
Inflight = List Lease

-- `s.attempts[id]`.
unfoldable pub attempt_of : ℕ → Inflight → Option ℕ
attempt_of id [] = none
attempt_of id (l ∷ ls) = if l.id == id then some l.attempt else attempt_of id ls

unfoldable pub add : Lease → Inflight → Inflight
add lease [] = lease ∷ []
add lease (l ∷ ls) = if l.id == lease.id then lease ∷ ls else l ∷ add lease ls

-- `delete(s.attempts, id)`.
unfoldable pub delete : ℕ → Inflight → Inflight
delete id [] = []
delete id (l ∷ ls) = if l.id == id then delete id ls else l ∷ delete id ls

abbrev pub holds : Lease → Inflight → Bool
holds lease ls = elim (attempt_of lease.id ls) [ none ↦ false | some held ↦ held == lease.attempt ]

unfoldable pub remove : Lease → Inflight → Inflight
remove lease ls = if holds lease ls then delete lease.id ls else ls

abbrev pub by_id : Lease → Lease → Bool
by_id a b = leb a.id b.id

-- Nil and the empty slice are both the empty list.
unfoldable pub snapshot : Inflight → List Lease
snapshot ls = sort_by by_id ls
