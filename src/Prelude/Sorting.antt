-- ===== src/Prelude/Sorting.antt =====
-- slices.SortFunc at a total order: insertion into a sorted list, over a Boolean test.
use mathlib.Core.Path.{◌≡◌, refl, subst}
use mathlib.Core.Bool.{Bool, true, false, ◌&&◌, Bool-set}
use mathlib.Core.List.{List, [], ◌∷◌, Perm, foldr}
use mathlib.Core.List.Perm
use native.Mathlib.Omega.{arith}
use mathlib.Core.Logic.{inl, inr}
use drover.Prelude.Tests.{if◌then◌else◌, Bool-cases}
use drover.Prelude.Lists.{All, Pairs, All-map}

module _ {ℓ} {A : Type ℓ} (before : A → A → Bool) where
  unfoldable pub insert_by : A → List A → List A
  insert_by x [] = x ∷ []
  insert_by x (y ∷ ys) = if before x y then x ∷ y ∷ ys else y ∷ insert_by x ys

  unfoldable pub sort_by : List A → List A
  unfolding insert_by
  sort_by [] = []
  sort_by (x ∷ xs) = insert_by x (sort_by xs)

  pub insert_by-perm : (x : A) (xs : List A) → Perm (insert_by x xs) (x ∷ xs)
  unfolding insert_by
  insert_by-perm x [] = Perm.refl _
  insert_by-perm x (y ∷ ys) = elim (Bool-cases (before x y)) [
    | inl e ↦ rw e (Perm.refl _)
    | inr e ↦ rw e (Perm.trans (Perm.cons y (insert_by-perm x ys)) (Perm.swap x y ys))
  ]

  -- The result holds the same items, as often.
  pub sort_by-perm : (xs : List A) → Perm (sort_by xs) xs
  unfolding sort_by
  sort_by-perm [] = Perm.refl _
  sort_by-perm (x ∷ xs) = Perm.trans (insert_by-perm x (sort_by xs)) (Perm.cons x (sort_by-perm xs))

  module _ {κ} (P : A → Type κ) where
    pub All-insert_by : (x : A) (xs : List A) → P x → All P xs → All P (insert_by x xs)
    unfolding insert_by
    All-insert_by x [] p h = (p, tt)
    All-insert_by x (y ∷ ys) p h = elim (Bool-cases (before x y)) [
      | inl e ↦ rw e (p, h)
      | inr e ↦ rw e (h.0, All-insert_by x ys p h.1)
    ]

    pub All-sort_by : (xs : List A) → All P xs → All P (sort_by xs)
    unfolding sort_by
    All-sort_by [] h = tt
    All-sort_by (x ∷ xs) h = All-insert_by x (sort_by xs) h.0 (All-sort_by xs h.1)

-- `before` is transitive and total.
pub record TotalOrder {ℓ} (A : Type ℓ) (before : A → A → Bool) : Type ℓ where
  pub trans : (x y z : A) → before x y ≡ true → before y z ≡ true → before x z ≡ true
  pub total : (x y : A) → before x y ≡ false → before y x ≡ true

module _ {ℓ} {A : Type ℓ} (before : A → A → Bool) (o : TotalOrder A before) where
  pub insert_by-Pairs :
      (x : A) (xs : List A)
      → Pairs (λ a b. before a b ≡ true) xs
      → Pairs (λ a b. before a b ≡ true) (insert_by before x xs)
  unfolding insert_by
  insert_by-Pairs x [] h = (tt, tt)
  insert_by-Pairs x (y ∷ ys) h = elim (Bool-cases (before x y)) [
    | inl e ↦
        rw e ((e, All-map (λ b. before y b ≡ true) (λ b p. o.trans x y b e p) ys h.0), (h.0, h.1))
    | inr e ↦ rw e (
      All-insert_by before (λ b. before y b ≡ true) x ys (o.total x y e) h.0,
      insert_by-Pairs x ys h.1,
    )
  ]

  -- Every item stands before each later one.
  pub sort_by-Pairs : (xs : List A) → Pairs (λ a b. before a b ≡ true) (sort_by before xs)
  unfolding sort_by
  sort_by-Pairs [] = tt
  sort_by-Pairs (x ∷ xs) = insert_by-Pairs x (sort_by before xs) (sort_by-Pairs xs)

-- A symmetric relation between the items survives a sort.
module _ {ℓ κ} {A : Type ℓ} (before : A → A → Bool) (R : A → A → Type κ)
    (symmetric : (a b : A) → R a b → R b a) where
  insert_by-Pairs_symm :
      (x : A) (xs : List A) → All (R x) xs → Pairs R xs → Pairs R (insert_by before x xs)
  unfolding insert_by
  insert_by-Pairs_symm x [] h ps = (tt, tt)
  insert_by-Pairs_symm x (y ∷ ys) h ps = elim (Bool-cases (before x y)) [
    | inl e ↦ rw e (h, ps)
    | inr e ↦ rw e (
      All-insert_by before (R y) x ys (symmetric x y h.0) ps.0,
      insert_by-Pairs_symm x ys h.1 ps.1,
    )
  ]

  pub sort_by-Pairs_symm : (xs : List A) → Pairs R xs → Pairs R (sort_by before xs)
  unfolding sort_by
  sort_by-Pairs_symm [] h = tt
  sort_by-Pairs_symm (x ∷ xs) h =
      insert_by-Pairs_symm x (sort_by before xs) (All-sort_by before (R x) xs h.0)
        (sort_by-Pairs_symm xs h.1)

module _ {A : Type 0} (test : A → Bool) where
  abbrev all_pass : List A → Bool
  all_pass xs = foldr (λ x rest. test x && rest) true xs

  all_pass-All : (xs : List A) → all_pass xs ≡ true → All (λ x. test x ≡ true) xs
  all_pass-All [] h = tt
  all_pass-All (x ∷ xs) h = (ground arith, all_pass-All xs (ground arith))

  All-all_pass : (xs : List A) → All (λ x. test x ≡ true) xs → all_pass xs ≡ true
  All-all_pass [] h = refl
  All-all_pass (x ∷ xs) h = rw (h.0) (All-all_pass xs h.1)

  -- A test that all items pass is passed by all items of a rearrangement.
  pub All-perm :
      {xs ys : List A} → Perm xs ys → All (λ x. test x ≡ true) xs → All (λ x. test x ≡ true) ys
  All-perm {xs = xs} {ys = ys} p h = all_pass-All ys (
      subst (λ b. b ≡ true) (Perm.foldr-eq Bool-set (λ x rest. test x && rest) both_orders p true)
        (All-all_pass xs h))
    where
      both_orders : (a b : A) (c : Bool) → (test a && (test b && c)) ≡ (test b && (test a && c))
      both_orders a b c = ground arith
