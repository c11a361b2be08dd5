-- ===== src/Queues/Checked.antt =====
-- What checkedQueues makes of the configuration.
use mathlib.Core.List.Perm
use drover.Prelude.{
  String, ◌≡◌, refl, ◌≤◌, ◌<◌, ◌≢◌, false, List, [], ◌∷◌, map, arith, str_eq, Perm, All, Bool-cases,
  inl, inr, ◌⊎◌, Result, ok, err, Result-cases, ℤ, All-sort_by, sort_by, sort_by-perm, ap, subst,
}
use drover.Queues.{
  WeightedQueue, Panic, empty_queue_name, max_queue_weight, default_queue, clamp_weight,
  check_entries, by_name, checked_queues,
}

-- A weight that the fetch loop can draw by, and a name that a job can have.
pub record Usable (q : WeightedQueue) : Type 0 where
  pub least : 0 < q.weight
  pub most : q.weight ≤ max_queue_weight
  pub named : str_eq q.name "" ≡ false

clamp_weight_bounds : (w : ℤ) → (0 < clamp_weight w) × (clamp_weight w ≤ max_queue_weight)
unfolding clamp_weight
clamp_weight_bounds w = ground arith

-- What comes of the entries: a panic only at an empty name, and otherwise a usable queue for each.
abbrev Checks : List (String × ℤ) → Result Panic (List WeightedQueue) → Type 0
Checks entries (ok out) = All Usable out × (map (λ q. q.name) out ≡ map (λ e. e.0) entries)
Checks entries (err p) = ¬ All (λ e. str_eq e.0 "" ≡ false) entries

check_entries-Checks : (entries : List (String × ℤ)) → Checks entries (check_entries entries)
unfolding check_entries
check_entries-Checks [] = (tt, refl)
check_entries-Checks ((name, weight) ∷ rest) = elim (Bool-cases (str_eq name "")) [
  | inl empty ↦ rw empty (λ h. ground (arith, h.0))
  | inr named ↦ rw named (after named (check_entries rest) (check_entries-Checks rest))
]
  where
    q : WeightedQueue
    q = record { name = name; weight = clamp_weight weight }

    after :
        str_eq name "" ≡ false
        → (r : Result Panic (List WeightedQueue)) → Checks rest r
        → Checks ((name, weight) ∷ rest) (elim r [ err p ↦ err p | ok out ↦ ok (q ∷ out) ])
    after named (err p) h = λ g. h g.1
    after named (ok out) h = (
      (
        record {
          least = (clamp_weight_bounds weight).0;
          most = (clamp_weight_bounds weight).1;
          named = named;
        },
        h.0,
      ),
      ap (◌∷◌ name) h.1,
    )

Usable-default : Usable (record { name = default_queue; weight = 1 })
Usable-default = record { least = omega arith; most = omega arith; named = refl }

-- The queues that a client runs with: a queue for every configured entry, under its name, with a weight
-- between one and the maximum; the default queue alone where none is configured; and a panic only if
-- some name is empty.
pub checked_queues-Usable :
    (entries : List (String × ℤ))
    → ((qs : List WeightedQueue) × (checked_queues entries ≡ ok qs)
        × All Usable qs
        × ((entries ≢ []) → Perm (map (λ q. q.name) qs) (map (λ e. e.0) entries)))
      ⊎ ((checked_queues entries ≡ err empty_queue_name)
          × (¬ All (λ e. str_eq e.0 "" ≡ false) entries))
unfolding checked_queues
checked_queues-Usable [] = inl (
  record { name = default_queue; weight = 1 } ∷ [],
  refl,
  (Usable-default, tt),
  λ h. absurd (h refl),
)
checked_queues-Usable (entry ∷ rest) = elim (Result-cases (check_entries (entry ∷ rest))) [
  | inl (out, e) ↦
      let (usable, same) = subst (Checks (entry ∷ rest)) e (check_entries-Checks (entry ∷ rest)) in
      inl (
        sort_by by_name out,
        rw (e, checked_queues) refl,
        All-sort_by by_name Usable out usable,
        λ h. rw (← same) (Perm.map (λ q. q.name) (sort_by-perm by_name out)),
      )
  | inr (empty_queue_name, e) ↦ inr (
    rw (e, checked_queues) refl,
    subst (Checks (entry ∷ rest)) e (check_entries-Checks (entry ∷ rest)),
  )
]
