-- ===== src/Stats/Vectors.antt =====
-- The gauge vectors of metrics.go, and the walks of stats.go's refresh that set and delete series.
use drover.Prelude.{
  ℕ, Bool, true, false, not, ◌&&◌, List, [], ◌∷◌, Option, none, some, if◌then◌else◌, ◌≡◌, refl,
  arith, Bool-cases, inl, inr, ap, sym, ◌∙◌, All,
}
use drover.Stats.Maps.{
  lookup, has_key, holds, keys_of, Decides, IsMap, last_given, lookup-has_key, holds-keys_of,
  true_not_false,
}

abbrev pub Gauges : Type 0 → Type 0
Gauges K = K → Option ℕ

abbrev pub is_some : Option ℕ → Bool
is_some none = false
is_some (some n) = true

module _ {K : Type 0} (eq : K → K → Bool) (valid : K → Bool) where
  -- setDepth and setOldestAge: labels that Prometheus refuses are skipped.
  unfoldable pub set_series : K → ℕ → Gauges K → Gauges K
  set_series key n g k = if valid key then (if eq key k then some n else g k) else g k

  unfoldable pub set_all : List (K × ℕ) → Gauges K → Gauges K
  unfolding set_series
  set_all [] g = g
  set_all ((key, n) ∷ wanted) g = set_all wanted (set_series key n g)

  -- The states that `observe` sees during the walk.
  unfoldable pub set_states : List (K × ℕ) → Gauges K → List (Gauges K)
  unfolding set_series
  set_states [] g = []
  set_states ((key, n) ∷ wanted) g = set_series key n g ∷ set_states wanted (set_series key n g)

module _ {K : Type 0} (eq : K → K → Bool) where
  -- deleteDepth and deleteOldestAge.
  unfoldable pub delete_series : K → Gauges K → Gauges K
  delete_series key g k = if eq key k then none else g k

  -- The walk over the keys of the last refresh.
  unfoldable pub delete_gone : List (K × ℕ) → List K → Gauges K → Gauges K
  unfolding delete_series
  delete_gone wanted [] g = g
  delete_gone wanted (key ∷ keys) g =
      delete_gone wanted keys (if has_key eq key wanted then g else delete_series key g)

  unfoldable pub delete_states : List (K × ℕ) → List K → Gauges K → List (Gauges K)
  unfolding delete_series
  delete_states wanted [] g = []
  delete_states wanted (key ∷ keys) g =
      let rest =
        delete_states wanted keys (if has_key eq key wanted then g else delete_series key g) in
      if has_key eq key wanted then rest else delete_series key g ∷ rest

  unfoldable pub publish : (K → Bool) → List (K × ℕ) → List K → Gauges K → Gauges K
  unfolding set_all delete_gone
  publish valid wanted keys g = delete_gone wanted keys (set_all eq valid wanted g)

module _ {K : Type 0} (eq : K → K → Bool) (d : Decides eq) (valid : K → Bool) where
  absent :
      (key k : K) (m : List (K × ℕ))
      → eq key k ≡ true
      → All (λ b. eq key b.0 ≡ false) m
      → lookup eq k m ≡ none
  unfolding lookup
  absent key k [] e h = refl
  absent key k ((k', n) ∷ m) e h = elim (Bool-cases (eq k' k)) [
    | inr f ↦ rw f (absent key k m e h.1)
    | inl f ↦ absurd (true_not_false (sym e ∙ ap (eq key) (sym (d.same k' k f)) ∙ h.0))
  ]

  set_series-same :
      (k key : K) (n : ℕ) (g : Gauges K)
      → eq key k ≡ true
      → set_series eq valid key n g k ≡ (if valid k then some n else g k)
  unfolding set_series
  set_series-same k key n g e = rw e (rw (d.same key k e) refl)

  set_series-other :
      (k key : K) (n : ℕ) (g : Gauges K) → eq key k ≡ false → set_series eq valid key n g k ≡ g k
  unfolding set_series
  set_series-other k key n g e = elim (Bool-cases (valid key)) [
    | inl v ↦ rw (v, e) refl
    | inr v ↦ rw v refl
  ]

  -- What the series holds after the walk over any entries.
  pub set_all-last_given :
      (k : K) (entries : List (K × ℕ)) (g : Gauges K)
      → set_all eq valid entries g k ≡ (if valid k then last_given eq d k entries (g k) else g k)
  unfolding set_all
  set_all-last_given k [] g = elim (Bool-cases (valid k)) [ inl v ↦ rw v refl | inr v ↦ rw v refl ]
  set_all-last_given k ((key, n) ∷ entries) g = elim (Bool-cases (eq key k)) [
    | inr e ↦
        set_all-last_given k entries (set_series eq valid key n g)
        ∙ ap (λ x. if valid k then last_given eq d k entries x else x)
            (set_series-other k key n g e)
        ∙ rw e refl
    | inl e ↦
        set_all-last_given k entries (set_series eq valid key n g)
        ∙ ap (λ x. if valid k then last_given eq d k entries x else x) (set_series-same k key n g e)
        ∙ rw e (elim (Bool-cases (valid k)) [ inl v ↦ rw v refl | inr v ↦ rw v refl ])
  ]

  -- What the series holds after the walk over a map.
  set_all-lookup :
      (k : K) (m : List (K × ℕ)) (g : Gauges K)
      → IsMap eq d m
      → set_all eq valid m g k
        ≡ (if valid k then (elim (lookup eq k m) [ none ↦ g k | some n ↦ some n ]) else g k)
  unfolding set_all set_series lookup
  set_all-lookup k [] g h = elim (Bool-cases (valid k)) [ inl v ↦ rw v refl | inr v ↦ rw v refl ]
  set_all-lookup k ((key, n) ∷ m) g h =
      let rest = set_all-lookup k m (set_series eq valid key n g) h.1 in
      elim (Bool-cases (eq key k)) [
        | inl e ↦
            rest
            ∙ rw (absent key k m e h.0, e)
                (rw (d.same key k e)
                  (elim (Bool-cases (valid k)) [ inl v ↦ rw v refl | inr v ↦ rw v refl ]))
        | inr e ↦
            rest
            ∙ ap
                (λ x.
                  if valid k then (elim (lookup eq k m) [ none ↦ x | some n' ↦ some n' ]) else x)
                (set_series-other k key n g e)
            ∙ rw e refl
      ]

  pub delete_gone-lookup :
      (k : K) (m : List (K × ℕ)) (keys : List K) (g : Gauges K)
      → delete_gone eq m keys g k ≡ (if holds eq k keys && not (has_key eq k m) then none else g k)
  unfolding delete_gone delete_series holds
  delete_gone-lookup k m [] g = refl
  delete_gone-lookup k m (key ∷ keys) g = elim (Bool-cases (has_key eq key m)) [
    | inl p ↦ rw p (
        delete_gone-lookup k m keys g ∙ elim (Bool-cases (eq key k)) [
          | inr e ↦ rw e refl
          | inl e ↦
              rw (sym (ap (λ x. has_key eq x m) (d.same key k e)) ∙ p) (
                rw e
                  (elim (Bool-cases (holds eq k keys)) [ inl q ↦ rw q refl | inr q ↦ rw q refl ]))
        ])
    | inr p ↦ rw p (
        delete_gone-lookup k m keys (delete_series eq key g) ∙ elim (Bool-cases (eq key k)) [
          | inr e ↦ rw e refl
          | inl e ↦
              rw (sym (ap (λ x. has_key eq x m) (d.same key k e)) ∙ p) (
                rw e
                  (elim (Bool-cases (holds eq k keys)) [ inl q ↦ rw q refl | inr q ↦ rw q refl ]))
        ])
  ]

  -- The published series are among the keys of the last refresh, and none has a refused label.
  pub record Tracked (keys : List K) (g : Gauges K) : Type 0 where
    pub tracked : (k : K) → holds eq k keys ≡ false → g k ≡ none
    pub accepted : (k : K) → valid k ≡ false → g k ≡ none

  pub publish_lem :
      (k : K) (m : List (K × ℕ)) (keys : List K) (g : Gauges K)
      → IsMap eq d m
      → Tracked keys g
      → publish eq valid m keys g k ≡ (if valid k then lookup eq k m else none)
  unfolding publish
  publish_lem k m keys g h t =
      delete_gone-lookup k m keys (set_all eq valid m g)
      ∙ rw (set_all-lookup k m g h, lookup-has_key eq k m)
          (ground (arith, t.tracked k, t.accepted k))

  pub publish-Tracked :
      (m : List (K × ℕ)) (keys : List K) (g : Gauges K)
      → IsMap eq d m
      → Tracked keys g
      → Tracked (keys_of m) (publish eq valid m keys g)
  publish-Tracked m keys g h t = record {
    tracked = λ k out.
        publish_lem k m keys g h t ∙ ground (arith, holds-keys_of eq k m, lookup-has_key eq k m);
    accepted = λ k no_label. publish_lem k m keys g h t ∙ rw no_label refl;
  }

  -- A series that is there and is wanted is there in every state of the walks.
  pub set_states-present :
      (k : K) (m : List (K × ℕ)) (g : Gauges K)
      → is_some (g k) ≡ true
      → All (λ state. is_some (state k) ≡ true) (set_states eq valid m g)
        × (is_some (set_all eq valid m g k) ≡ true)
  unfolding set_states set_all set_series
  set_states-present k [] g p = (tt, p)
  set_states-present k ((key, n) ∷ m) g p =
      let still : is_some (set_series eq valid key n g k) ≡ true = ground arith in
      let rest = set_states-present k m (set_series eq valid key n g) still in
      ((still, rest.0), rest.1)

  pub delete_states-present :
      (k : K) (m : List (K × ℕ)) (keys : List K) (g : Gauges K)
      → is_some (g k) ≡ true
      → has_key eq k m ≡ true
      → All (λ state. is_some (state k) ≡ true) (delete_states eq m keys g)
  unfolding delete_states delete_series
  delete_states-present k m [] g p w = tt
  delete_states-present k m (key ∷ keys) g p w = elim (Bool-cases (has_key eq key m)) [
    | inl q ↦ rw q (delete_states-present k m keys g p w)
    | inr q ↦
        let still : is_some (delete_series eq key g k) ≡ true = elim (Bool-cases (eq key k)) [
          | inl e ↦
              absurd (true_not_false (sym w ∙ ap (λ x. has_key eq x m) (sym (d.same key k e)) ∙ q))
          | inr e ↦ rw e p
        ] in
        rw q (still, delete_states-present k m keys (delete_series eq key g) still w)
  ]

  pub delete_gone-present :
      (k : K) (m : List (K × ℕ)) (keys : List K) (g : Gauges K)
      → is_some (g k) ≡ true
      → has_key eq k m ≡ true
      → is_some (delete_gone eq m keys g k) ≡ true
  delete_gone-present k m keys g p w =
      ap is_some (delete_gone-lookup k m keys g)
      ∙ rw w (elim (Bool-cases (holds eq k keys)) [ inl h ↦ rw h p | inr h ↦ rw h p ])
