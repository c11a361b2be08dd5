-- ===== src/Queues/Laws.antt =====
-- weightedOrder of queues.go: the order of a round and the share of a draw.
use mathlib.Core.List.{append_assoc, append-nil}
use mathlib.Core.List.Perm
use drover.Prelude.{
  ℕ, zero, suc, String, ◌+◌, ◌-◌, ◌≡◌, refl, ◌≤◌, ◌<◌, false, List, [], ◌∷◌, ◌++◌, map, Option,
  some, arith, ltb, ltb→lt, ◌==◌, length, Perm, All, Bool-cases, inl, inr, ap, sym, ◌∙◌, take,
}
use native.Mathlib.Nat.{le_refl}
use drover.Queues.{
  WeightedQueue, total_weight, pick_index, last_of, init_of, at_index, set, swap_remove, order_from,
  weighted_order,
}

module _ {ℓ} {A : Type ℓ} where
  last_of-perm : (x : A) (xs : List A) → Perm (last_of x xs ∷ init_of x xs) (x ∷ xs)
  unfolding last_of init_of
  last_of-perm x [] = Perm.refl _
  last_of-perm x (y ∷ ys) =
      Perm.trans (Perm.swap x (last_of y ys) (init_of y ys)) (Perm.cons x (last_of-perm y ys))

  length-init_of : (x : A) (xs : List A) → length (init_of x xs) ≡ length xs
  unfolding init_of
  length-init_of x [] = refl
  length-init_of x (y ∷ ys) = ap suc (length-init_of y ys)

  length-set : (xs : List A) (i : ℕ) (v : A) → length (set xs i v) ≡ length xs
  unfolding set
  length-set [] i v = refl
  length-set (x ∷ xs) zero v = refl
  length-set (x ∷ xs) (suc i) v = ap suc (length-set xs i v)

  swap_remove-perm :
      (x : A) (xs : List A) (i : ℕ)
      → i ≤ length xs
      → Perm (at_index x xs i ∷ swap_remove x xs i) (x ∷ xs)
  unfolding at_index swap_remove last_of init_of set
  swap_remove-perm x [] zero h = Perm.refl _
  swap_remove-perm x [] (suc i) h = absurd (omega arith)
  swap_remove-perm x (y ∷ ys) zero h = Perm.cons x (last_of-perm y ys)
  swap_remove-perm x (y ∷ ys) (suc i) h =
      Perm.trans (Perm.swap x (at_index y ys i) (swap_remove y ys i))
        (Perm.cons x (swap_remove-perm y ys i (omega arith)))

pick_index-le :
    (pick acc i last : ℕ) (qs : List WeightedQueue)
    → i + length qs ≡ last + 1
    → pick_index pick acc i last qs ≤ last
unfolding pick_index
pick_index-le pick acc i last [] h = le_refl last
pick_index-le pick acc i last (q ∷ qs) h = elim (Bool-cases (ltb pick (acc + q.weight))) [
  | inl e ↦ rw e (omega arith)
  | inr e ↦ rw e (pick_index-le pick (acc + q.weight) (i + 1) last qs (omega arith))
]

length-swap_remove :
    (q : WeightedQueue) (qs : List WeightedQueue) (i : ℕ) → length (swap_remove q qs i) ≡ length qs
unfolding swap_remove
length-swap_remove q qs i = length-set (init_of q qs) i _ ∙ length-init_of q qs

total_weight-last_of :
    (q : WeightedQueue) (qs : List WeightedQueue)
    → (last_of q qs).weight + total_weight (init_of q qs) ≡ total_weight (q ∷ qs)
unfolding last_of init_of total_weight
total_weight-last_of q [] = refl
total_weight-last_of q (r ∷ qs) = omega (arith, total_weight-last_of r qs)

total_weight-swap_remove :
    (q : WeightedQueue) (qs : List WeightedQueue) (i : ℕ)
    → i ≤ length qs
    → (at_index q qs i).weight + total_weight (swap_remove q qs i) ≡ total_weight (q ∷ qs)
unfolding at_index swap_remove last_of init_of set total_weight
total_weight-swap_remove q [] zero h = refl
total_weight-swap_remove q [] (suc i) h = absurd (omega arith)
total_weight-swap_remove q (r ∷ qs) zero h = omega (arith, total_weight-last_of r qs)
total_weight-swap_remove q (r ∷ qs) (suc i) h =
    omega (arith, total_weight-swap_remove r qs i (omega arith))

-- Every queue has a weight.
abbrev pub Weighs : WeightedQueue → Type 0
Weighs q = 0 < q.weight

All-last_of :
    (q : WeightedQueue) (qs : List WeightedQueue)
    → All Weighs (q ∷ qs)
    → All Weighs (last_of q qs ∷ init_of q qs)
unfolding last_of init_of
All-last_of q [] h = h
All-last_of q (r ∷ qs) h = let rest = All-last_of r qs h.1 in (rest.0, (h.0, rest.1))

All-swap_remove :
    (q : WeightedQueue) (qs : List WeightedQueue) (i : ℕ)
    → All Weighs (q ∷ qs)
    → All Weighs (swap_remove q qs i)
unfolding swap_remove last_of init_of set
All-swap_remove q [] zero h = tt
All-swap_remove q [] (suc i) h = tt
All-swap_remove q (r ∷ qs) zero h = All-last_of r qs h.1
All-swap_remove q (r ∷ qs) (suc i) h = (h.0, All-swap_remove r qs i h.1)

abbrev names : List WeightedQueue → List String
names = map (λ q. q.name)

abbrev Ordered : List WeightedQueue → List String → Option (List String) → Type 0
Ordered qs dst r = (out : List String) × (r ≡ some (dst ++ out)) × Perm out (names qs)

positive :
    (total : ℕ) (q : WeightedQueue) (qs : List WeightedQueue)
    → total ≡ total_weight (q ∷ qs)
    → 0 < q.weight
    → (total == 0) ≡ false
unfolding total_weight
positive total q qs t w = ground arith

order_from-Ordered :
    (draw : ℕ → ℕ) (rounds total : ℕ) (qs : List WeightedQueue) (dst : List String)
    → rounds ≡ length qs
    → total ≡ total_weight qs
    → All Weighs qs
    → Ordered qs dst (order_from draw rounds total qs dst)
unfolding order_from
order_from-Ordered draw zero total [] dst n t w = ([], ap some (sym (append-nil dst)), Perm.refl _)
order_from-Ordered draw (suc rounds) total [] dst n t w = absurd (omega arith)
order_from-Ordered draw zero total (q ∷ qs) dst n t w = absurd (omega arith)
order_from-Ordered draw (suc rounds) total (q ∷ qs) dst n t w =
    let idx : ℕ = pick_index (draw rounds) 0 0 (length qs) (q ∷ qs) in
    let low : idx ≤ length qs =
      pick_index-le (draw rounds) 0 0 (length qs) (q ∷ qs) (omega arith) in
    let left = total_weight-swap_remove q qs idx low in
    let some_left : (total == 0) ≡ false = positive total q qs t w.0 in
    let (out, e, p) =
      order_from-Ordered draw rounds (total - (at_index q qs idx).weight) (swap_remove q qs idx)
        (dst ++ (at_index q qs idx).name ∷ []) (omega (arith, length-swap_remove q qs idx))
        (omega arith) (All-swap_remove q qs idx w) in
    (
      (at_index q qs idx).name ∷ out,
      rw some_left (e ∙ ap some (append_assoc dst ((at_index q qs idx).name ∷ []) out)),
      Perm.trans (Perm.cons (at_index q qs idx).name p)
          (Perm.map (λ q. q.name) (swap_remove-perm q qs idx low)),
    )

-- Whatever is drawn, the order that weightedOrder gives to a round holds the name of every configured queue,
-- each as often as it is configured, so it leaves no queue out; and no draw is made from an empty range, which
-- would panic. The queues need weights of at least one.
pub weighted_order-perm :
    (draw : ℕ → ℕ) (qs : List WeightedQueue)
    → All Weighs qs
    → (out : List String) × (weighted_order draw qs ≡ some out) × Perm out (names qs)
unfolding weighted_order
weighted_order-perm draw [] w = ([], refl, Perm.refl _)
weighted_order-perm draw (q ∷ []) w = (q.name ∷ [], refl, Perm.refl _)
weighted_order-perm draw (q ∷ r ∷ qs) w =
    order_from-Ordered draw (length (q ∷ r ∷ qs)) (total_weight (q ∷ r ∷ qs)) (q ∷ r ∷ qs) [] refl
      refl w

share_from :
    (pick acc i last : ℕ) (qs : List WeightedQueue)
    → acc ≤ pick
    → pick < acc + total_weight qs
    → (k : ℕ) × (pick_index pick acc i last qs ≡ i + k)
      × (k < length qs)
      × (acc + total_weight (take k qs) ≤ pick)
      × (pick < acc + total_weight (take (suc k) qs))
unfolding pick_index total_weight
share_from pick acc i last [] lo hi = absurd (omega arith)
share_from pick acc i last (q ∷ qs) lo hi = elim (Bool-cases (ltb pick (acc + q.weight))) [
  | inl e ↦ (0, rw e (omega arith), omega arith, omega arith, omega (arith, ltb→lt pick _ e))
  | inr e ↦
      let above : acc + q.weight ≤ pick = ground arith in
      let (k, f, low, from, to) =
        share_from pick (acc + q.weight) (i + 1) last qs above (omega arith) in
      (suc k, rw e (omega arith), omega arith, omega arith, omega arith)
]

-- A draw below the total picks the queue whose share of the range it falls into: as many of the draws
-- pick a queue as its weight says, and the share starts where those of the queues before it end.
pub pick_index-share :
    (pick : ℕ) (qs : List WeightedQueue)
    → pick < total_weight qs
    → let i = pick_index pick 0 0 (length qs - 1) qs in
      (i < length qs) × (total_weight (take i qs) ≤ pick) × (pick < total_weight (take (suc i) qs))
pick_index-share pick qs h =
    let (k, e, low, from, to) =
      share_from pick 0 0 (length qs - 1) qs (omega arith) (omega arith) in
    let e' : pick_index pick 0 0 (length qs - 1) qs ≡ k = omega arith in
    rw e' (low, omega arith, omega arith)
