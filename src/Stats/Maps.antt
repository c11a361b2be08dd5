-- ===== src/Stats/Maps.antt =====
-- Go maps as association lists under a test of keys.
use drover.Prelude.{
  ℕ, Bool, true, false, ◌||◌, List, [], ◌∷◌, Option, none, some, if◌then◌else◌, ◌≡◌, refl, arith,
  Bool-cases, inl, inr, ap, sym, ◌∙◌, All, Pairs,
}

module _ {K : Type 0} (eq : K → K → Bool) where
  -- `m[key]` with its presence.
  unfoldable pub lookup : K → List (K × ℕ) → Option ℕ
  lookup key [] = none
  lookup key ((k, n) ∷ m) = if eq k key then some n else lookup key m

  -- `m[key] = n`.
  unfoldable pub assign : K → ℕ → List (K × ℕ) → List (K × ℕ)
  assign key n [] = (key, n) ∷ []
  assign key n ((k, n') ∷ m) = if eq k key then (k, n) ∷ m else (k, n') ∷ assign key n m

  unfoldable pub assign_all : List (K × ℕ) → List (K × ℕ) → List (K × ℕ)
  unfolding assign
  assign_all [] m = m
  assign_all ((k, n) ∷ entries) m = assign_all entries (assign k n m)

  unfoldable pub has_key : K → List (K × ℕ) → Bool
  has_key key [] = false
  has_key key ((k, n) ∷ m) = eq k key || has_key key m

  -- Membership in a `map[K]struct{}`.
  unfoldable pub holds : K → List K → Bool
  holds key [] = false
  holds key (k ∷ ks) = eq k key || holds key ks

unfoldable pub keys_of : {K : Type 0} → List (K × ℕ) → List K
keys_of [] = []
keys_of ((k, n) ∷ m) = k ∷ keys_of m

-- The test decides equality.
pub record Decides {K : Type 0} (eq : K → K → Bool) : Type 0 where
  pub same : (a b : K) → eq a b ≡ true → a ≡ b
  pub self : (a : K) → eq a a ≡ true

pub true_not_false : true ≡ false → ⊥
true_not_false e = ground arith

pub lookup-has_key :
    {K : Type 0} (eq : K → K → Bool) (key : K) (m : List (K × ℕ))
    → has_key eq key m ≡ (elim (lookup eq key m) [ none ↦ false | some n ↦ true ])
unfolding has_key lookup
lookup-has_key eq key [] = refl
lookup-has_key eq key ((k, n) ∷ m) = elim (Bool-cases (eq k key)) [
  | inl e ↦ rw e refl
  | inr e ↦ rw e (lookup-has_key eq key m)
]

pub holds-keys_of :
    {K : Type 0} (eq : K → K → Bool) (key : K) (m : List (K × ℕ))
    → holds eq key (keys_of m) ≡ has_key eq key m
unfolding holds has_key keys_of
holds-keys_of eq key [] = refl
holds-keys_of eq key ((k, n) ∷ m) = ap (λ b. eq k key || b) (holds-keys_of eq key m)

module _ {K : Type 0} (eq : K → K → Bool) (d : Decides eq) where
  -- What a walk over entries leaves for a key that had `before`.
  abbrev pub last_given : K → List (K × ℕ) → Option ℕ → Option ℕ
  last_given key [] before = before
  last_given key ((k, n) ∷ entries) before =
      last_given key entries (if eq k key then some n else before)

  pub lookup-assign :
      (key k : K) (n : ℕ) (m : List (K × ℕ))
      → lookup eq key (assign eq k n m) ≡ (if eq k key then some n else lookup eq key m)
  unfolding lookup assign
  lookup-assign key k n [] = refl
  lookup-assign key k n ((k', n') ∷ m) = elim (Bool-cases (eq k' k)) [
    | inl e ↦
        rw (e, d.same k' k e)
          (elim (Bool-cases (eq k key)) [ inl f ↦ rw f refl | inr f ↦ rw f refl ])
    | inr e ↦ elim (Bool-cases (eq k' key)) [
      | inr g ↦ rw (e, g) (lookup-assign key k n m)
      | inl g ↦ elim (Bool-cases (eq k key)) [
        | inr f ↦ rw (e, g, f) refl
        | inl f ↦ absurd (
            true_not_false
              (sym (d.self k) ∙ ap (λ x. eq x k) (d.same k key f ∙ sym (d.same k' key g)) ∙ e))
      ]
    ]
  ]

  -- A map lists a key once.
  abbrev pub IsMap : List (K × ℕ) → Type 0
  IsMap m = Pairs (λ a b. eq a.0 b.0 ≡ false) m

  All-assign :
      (P : K × ℕ → Type 0) (key : K) (n : ℕ) (m : List (K × ℕ))
      → ((k : K) → eq k key ≡ true → P (k, n))
      → P (key, n)
      → All P m
      → All P (assign eq key n m)
  unfolding assign
  All-assign P key n [] f p h = (p, tt)
  All-assign P key n ((k, n') ∷ m) f p h = elim (Bool-cases (eq k key)) [
    | inl e ↦ rw e (f k e, h.1)
    | inr e ↦ rw e (h.0, All-assign P key n m f p h.1)
  ]

  pub assign-IsMap : (key : K) (n : ℕ) (m : List (K × ℕ)) → IsMap m → IsMap (assign eq key n m)
  unfolding assign
  assign-IsMap key n [] h = (tt, tt)
  assign-IsMap key n ((k, n') ∷ m) h = elim (Bool-cases (eq k key)) [
    | inl e ↦ rw e (h.0, h.1)
    | inr e ↦ rw e (
      All-assign (λ b. eq k b.0 ≡ false) key n m (λ k' g. ap (eq k) (d.same k' key g) ∙ e) e h.0,
      assign-IsMap key n m h.1,
    )
  ]

  pub assign_all-IsMap : (entries m : List (K × ℕ)) → IsMap m → IsMap (assign_all eq entries m)
  unfolding assign_all
  assign_all-IsMap [] m h = h
  assign_all-IsMap ((k, n) ∷ entries) m h =
      assign_all-IsMap entries (assign eq k n m) (assign-IsMap k n m h)

  -- The value that the last entry of a key gives, else what the map held.
  pub lookup-assign_all :
      (key : K) (entries m : List (K × ℕ))
      → lookup eq key (assign_all eq entries m) ≡ last_given key entries (lookup eq key m)
  unfolding assign_all
  lookup-assign_all key [] m = refl
  lookup-assign_all key ((k, n) ∷ entries) m =
      lookup-assign_all key entries (assign eq k n m)
      ∙ ap (last_given key entries) (lookup-assign key k n m)
