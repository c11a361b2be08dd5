-- ===== src/Prelude/Lists.antt =====
-- Lists measured by native numbers, and predicates on lists by recursion.
use Prim.Native.Nat.{ℕ, zero, suc, ◌+◌, min}
use mathlib.Core.Path.{◌≡◌, refl, ap}
use mathlib.Core.Bool.{Bool, true}
use mathlib.Core.List.{List, [], ◌∷◌, ◌++◌, map}
use native.Mathlib.Omega.{arith}
use mathlib.Core.Logic.{inl, inr}
use drover.Prelude.Tests.{if◌then◌else◌, Bool-cases}

module _ {ℓ} {A : Type ℓ} where
  abbrev pub length : List A → ℕ
  length [] = 0
  length (x ∷ xs) = suc (length xs)

  abbrev pub take : ℕ → List A → List A
  take zero xs = []
  take (suc n) [] = []
  take (suc n) (x ∷ xs) = x ∷ take n xs

  abbrev pub drop : ℕ → List A → List A
  drop zero xs = xs
  drop (suc n) [] = []
  drop (suc n) (x ∷ xs) = drop n xs

  -- The library's `filter` takes a decision; the source filters by a Boolean test.
  abbrev pub keep_if : (A → Bool) → List A → List A
  keep_if p [] = []
  keep_if p (x ∷ xs) = if p x then x ∷ keep_if p xs else keep_if p xs

module _ {ℓ} {A : Type ℓ} where
  pub length-append : (xs ys : List A) → length (xs ++ ys) ≡ length xs + length ys
  length-append [] ys = omega arith
  length-append (x ∷ xs) ys = omega (arith, length-append xs ys)

  pub length-map {κ} : {B : Type κ} (f : A → B) (xs : List A) → length (map f xs) ≡ length xs
  length-map f [] = refl
  length-map f (x ∷ xs) = ap suc (length-map f xs)

  pub length-take : (n : ℕ) (xs : List A) → length (take n xs) ≡ min n (length xs)
  length-take zero xs = omega arith
  length-take (suc n) [] = omega arith
  length-take (suc n) (x ∷ xs) = omega (arith, length-take n xs)

  pub take-append-drop : (n : ℕ) (xs : List A) → take n xs ++ drop n xs ≡ xs
  take-append-drop zero xs = refl
  take-append-drop (suc n) [] = refl
  take-append-drop (suc n) (x ∷ xs) = ap (◌∷◌ x) (take-append-drop n xs)

-- P holds of every item.
abbrev pub All {ℓ κ} : {A : Type ℓ} → (A → Type κ) → List A → Type κ
All P [] = Unit
All P (x ∷ xs) = P x × All P xs

-- R holds between every item and each later one.
abbrev pub Pairs {ℓ κ} : {A : Type ℓ} → (A → A → Type κ) → List A → Type κ
Pairs R [] = Unit
Pairs R (x ∷ xs) = All (R x) xs × Pairs R xs

module _ {ℓ κ} {A : Type ℓ} (P : A → Type κ) where
  pub All-append : (xs ys : List A) → All P xs → All P ys → All P (xs ++ ys)
  All-append [] ys hx hy = hy
  All-append (x ∷ xs) ys hx hy = (hx.0, All-append xs ys hx.1 hy)

  pub All-take : (n : ℕ) (xs : List A) → All P xs → All P (take n xs)
  All-take zero xs h = tt
  All-take (suc n) [] h = tt
  All-take (suc n) (x ∷ xs) h = (h.0, All-take n xs h.1)

  pub All-map {ι} : {Q : A → Type ι} (f : (x : A) → P x → Q x) (xs : List A) → All P xs → All Q xs
  All-map f [] h = tt
  All-map f (x ∷ xs) h = (f x h.0, All-map f xs h.1)

module _ {ℓ κ} {A : Type ℓ} (P : A → Type κ) (p : A → Bool) where
  -- What is kept passes the test, and what held of the items still does.
  pub All-keep_if : (xs : List A) → All P xs → All (λ x. P x × (p x ≡ true)) (keep_if p xs)
  All-keep_if [] h = tt
  All-keep_if (x ∷ xs) h = elim (Bool-cases (p x)) [
    | inl e ↦ rw e ((h.0, e), All-keep_if xs h.1)
    | inr e ↦ rw e (All-keep_if xs h.1)
  ]

module _ {ℓ κ} {A : Type ℓ} (R : A → A → Type κ) (p : A → Bool) where
  pub Pairs-keep_if : (xs : List A) → Pairs R xs → Pairs R (keep_if p xs)
  Pairs-keep_if [] h = tt
  Pairs-keep_if (x ∷ xs) h = elim (Bool-cases (p x)) [
    | inl e ↦ rw e (
      All-map (λ y. R x y × (p y ≡ true)) (λ y q. q.0) (keep_if p xs) (All-keep_if (R x) p xs h.0),
      Pairs-keep_if xs h.1,
    )
    | inr e ↦ rw e (Pairs-keep_if xs h.1)
  ]

pub All-both {ℓ κ ι} :
    {A : Type ℓ} (P : A → Type κ) (Q : A → Type ι) (xs : List A)
    → All P xs
    → All Q xs
    → All (λ x. P x × Q x) xs
All-both P Q [] p q = tt
All-both P Q (x ∷ xs) p q = ((p.0, q.0), All-both P Q xs p.1 q.1)

pub Pairs-map {ℓ} :
    {A : Type ℓ} {R Q : A → A → Type ℓ} (f : (x y : A) → R x y → Q x y) (xs : List A)
    → Pairs R xs
    → Pairs Q xs
Pairs-map f [] h = tt
Pairs-map {R = R} f (x ∷ xs) h = (All-map (R x) (f x) xs h.0, Pairs-map f xs h.1)

-- An item moves to the front, and back.
module _ {ℓ κ} {A : Type ℓ} where
  pub All-move :
      (P : A → Type κ) (xs ys : List A) (x : A) → All P (xs ++ x ∷ ys) → All P (x ∷ (xs ++ ys))
  All-move P [] ys x h = h
  All-move P (y ∷ xs) ys x h = let (p, q) = All-move P xs ys x h.1 in (p, (h.0, q))

  pub All-move_back :
      (P : A → Type κ) (xs ys : List A) (x : A) → All P (x ∷ (xs ++ ys)) → All P (xs ++ x ∷ ys)
  All-move_back P [] ys x h = h
  All-move_back P (y ∷ xs) ys x (p, (q, r)) = (q, All-move_back P xs ys x (p, r))

module _ {ℓ κ} {A : Type ℓ} (R : A → A → Type κ) (flip : (a b : A) → R a b → R b a) where
  pub Pairs-move : (xs ys : List A) (x : A) → Pairs R (xs ++ x ∷ ys) → Pairs R (x ∷ (xs ++ ys))
  Pairs-move [] ys x h = h
  Pairs-move (y ∷ xs) ys x (h, hs) =
      let (front, apart) = Pairs-move xs ys x hs in
      let (near, rest) = All-move (R y) xs ys x h in ((flip y x near, front), (rest, apart))

  pub Pairs-move_back : (xs ys : List A) (x : A) → Pairs R (x ∷ (xs ++ ys)) → Pairs R (xs ++ x ∷ ys)
  Pairs-move_back [] ys x h = h
  Pairs-move_back (y ∷ xs) ys x ((h, hs), (rest, apart)) =
      (All-move_back (R y) xs ys x (flip x y h, rest), Pairs-move_back xs ys x (hs, apart))
