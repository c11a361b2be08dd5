-- ===== src/Queues.antt =====
-- queues.go: the configured queues and the weighted order in which a fetch round visits them.
-- `Config.Queues`, a map, is a list of its entries; `rand.Int64N` is the argument `draw`, by the round.
pub mod Laws
pub mod Checked
mod Tests
use Prim.Native.String.{compare}
use Prim.Native.Nat.{Ordering}
use drover.Prelude.{
  ℕ, zero, suc, String, ◌+◌, ◌-◌, Bool, true, false, List, [], ◌∷◌, ◌++◌, Option, none, some, ltb,
  ◌==◌, str_eq, if◌then◌else◌, length, sort_by, Result, ok, err, ℤ, pos, pos_part, ltb_ℤ,
}

abbrev pub max_queue_weight : ℕ
max_queue_weight = 100_000

abbrev pub default_queue : String
default_queue = "default"

pub record WeightedQueue : Type 0 where
  pub name : String
  pub weight : ℕ

-- Construction panics on an empty queue name.
pub data Panic : Type 0 where
  empty_queue_name : Panic

-- The switch on the weight.
unfoldable pub clamp_weight : ℤ → ℕ
clamp_weight w =
    if ltb_ℤ w (pos 1)
    then 1
    else if ltb_ℤ (pos max_queue_weight) w
    then max_queue_weight
    else pos_part w

-- The loop over the map's entries.
unfoldable pub check_entries : List (String × ℤ) → Result Panic (List WeightedQueue)
unfolding clamp_weight
check_entries [] = ok []
check_entries ((name, weight) ∷ rest) =
    if str_eq name "" then err empty_queue_name else elim (check_entries rest) [
      | err p ↦ err p
      | ok out ↦ ok (record { name = name; weight = clamp_weight weight } ∷ out)
    ]

abbrev pub by_name : WeightedQueue → WeightedQueue → Bool
by_name a b = elim (compare a.name b.name) [ Ordering.gt ↦ false | _ ↦ true ]

unfoldable pub checked_queues : List (String × ℤ) → Result Panic (List WeightedQueue)
unfolding check_entries
checked_queues [] = ok (record { name = default_queue; weight = 1 } ∷ [])
checked_queues (entry ∷ rest) = elim (check_entries (entry ∷ rest)) [
  | err p ↦ err p
  | ok out ↦ ok (sort_by by_name out)
]

unfoldable pub total_weight : List WeightedQueue → ℕ
total_weight [] = 0
total_weight (q ∷ qs) = q.weight + total_weight qs

-- The loop that looks for the drawn queue: `acc` is the running sum, `i` the index; past the end it is
-- the last index, as the source starts with.
unfoldable pub pick_index : ℕ → ℕ → ℕ → ℕ → List WeightedQueue → ℕ
pick_index pick acc i last [] = last
pick_index pick acc i last (q ∷ qs) =
    if ltb pick (acc + q.weight) then i else pick_index pick (acc + q.weight) (i + 1) last qs

module _ {ℓ} {A : Type ℓ} where
  -- `remaining[len(remaining)-1]` and `remaining[:len(remaining)-1]`, of x ∷ xs.
  unfoldable pub last_of : A → List A → A
  last_of x [] = x
  last_of x (y ∷ ys) = last_of y ys

  unfoldable pub init_of : A → List A → List A
  init_of x [] = []
  init_of x (y ∷ ys) = x ∷ init_of y ys

  -- `remaining[idx]`, an index in range.
  unfoldable pub at_index : A → List A → ℕ → A
  at_index x xs zero = x
  at_index x [] (suc i) = x
  at_index x (y ∷ ys) (suc i) = at_index y ys i

  -- A write past the end changes nothing.
  unfoldable pub set : List A → ℕ → A → List A
  set [] i v = []
  set (x ∷ xs) zero v = v ∷ xs
  set (x ∷ xs) (suc i) v = x ∷ set xs i v

  -- The last item moves to the index and the list is cut by one.
  unfoldable pub swap_remove : A → List A → ℕ → List A
  unfolding last_of init_of set
  swap_remove x xs i = set (init_of x xs) i (last_of x xs)

-- The loop over what is left: `rounds` is how many queues that is. A total of zero makes Int64N panic.
unfoldable pub order_from :
    (ℕ → ℕ) → ℕ → ℕ → List WeightedQueue → List String → Option (List String)
unfolding at_index swap_remove pick_index
order_from draw rounds total [] dst = some dst
order_from draw zero total (q ∷ qs) dst = some dst
order_from draw (suc rounds) total (q ∷ qs) dst =
    let idx = pick_index (draw rounds) 0 0 (length qs) (q ∷ qs) in
    let rest =
      order_from draw rounds (total - (at_index q qs idx).weight) (swap_remove q qs idx)
        (dst ++ (at_index q qs idx).name ∷ []) in
    if total == 0 then none else rest

unfoldable pub weighted_order : (ℕ → ℕ) → List WeightedQueue → Option (List String)
unfolding order_from total_weight
weighted_order draw [] = some []
weighted_order draw (q ∷ []) = some (q.name ∷ [])
weighted_order draw (q ∷ r ∷ qs) =
    order_from draw (length (q ∷ r ∷ qs)) (total_weight (q ∷ r ∷ qs)) (q ∷ r ∷ qs) []
