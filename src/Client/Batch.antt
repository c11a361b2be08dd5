-- ===== src/Client/Batch.antt =====
-- What a batch of items is turned into, and what becomes of it.
use drover.Prelude.{
  ℕ, suc, ◌+◌, ◌≡◌, refl, ◌≢◌, ◌⊎◌, inl, inr, String, Bool, false, List, [], ◌∷◌, ◌++◌, Option,
  none, some, arith, str_eq, Bool-cases, Option-cases, Result, ok, err, Result-cases, length, ap,
  subst, ◌∙◌,
}
use drover.Driver.{Bytes, InsertParams, JobRow, Error}
use drover.Queues.{default_queue}
use drover.Client.Enqueue.{
  InsertOpts, InsertItem, ClientError, item, with_opts, default_params, insert_params_for,
  insert_params_from, insert_params_for_many, store_batch, client_insert_many,
}

default_queue_named : str_eq default_queue "" ≡ false
default_queue_named = refl

module _ {A : Type 0} (kind : A → String) (marshal : A → Option Bytes) where
  -- Each item yields the parameters at its place.
  abbrev pub Yields : List (InsertItem A) → List InsertParams → Type 0
  Yields [] [] = Unit
  Yields (x ∷ xs) (p ∷ ps) =
      (insert_params_for kind marshal x.args x.opts ≡ ok p)
      × (str_eq p.kind "" ≡ false)
      × (str_eq p.queue "" ≡ false)
      × Yields xs ps
  Yields [] (p ∷ ps) = ⊥
  Yields (x ∷ xs) [] = ⊥

  -- The first item that yields nothing, with the items before it.
  abbrev pub FailsAt : ℕ → List (InsertItem A) → ClientError → Type 0
  FailsAt start xs e =
      (before : List (InsertItem A)) × (bad : InsertItem A) × (rest : List (InsertItem A))
      × (ps : List InsertParams) × (why : ClientError) × (xs ≡ before ++ bad ∷ rest)
      × Yields before ps
      × (insert_params_for kind marshal bad.args bad.opts ≡ err why)
      × (e ≡ item (start + length before) why)

  insert_params_for-named :
      (args : Option A) (opts : Option InsertOpts) (p : InsertParams)
      → insert_params_for kind marshal args opts ≡ ok p
      → (str_eq p.kind "" ≡ false) × (str_eq p.queue "" ≡ false)
  unfolding insert_params_for
  insert_params_for-named none opts p h = ground arith
  insert_params_for-named (some a) opts p h = elim (Bool-cases (str_eq (kind a) "")) [
    | inl e ↦ absurd (ground arith)
    | inr e ↦ elim (Option-cases (marshal a)) [
      | inl n ↦ absurd (ground arith)
      | inr (encoded, m) ↦
          let made : with_opts opts (default_params (kind a) encoded) ≡ p = ground arith in
          subst (λ (q : InsertParams). (str_eq q.kind "" ≡ false) × (str_eq q.queue "" ≡ false))
            made (named opts (default_params (kind a) encoded) e default_queue_named)
    ]
  ]
    where
      named :
          (opts : Option InsertOpts) (p : InsertParams)
          → str_eq p.kind "" ≡ false
          → str_eq p.queue "" ≡ false
          → (str_eq (with_opts opts p).kind "" ≡ false)
            × (str_eq (with_opts opts p).queue "" ≡ false)
      named none p k q = (k, q)
      named (some o) p k q = (k, ground arith)

  insert_params_from-cases :
      (i : ℕ) (xs : List (InsertItem A))
      → ((ps : List InsertParams) × (insert_params_from kind marshal i xs ≡ ok ps) × Yields xs ps)
        ⊎ ((e : ClientError) × (insert_params_from kind marshal i xs ≡ err e) × FailsAt i xs e)
  unfolding insert_params_from
  insert_params_from-cases i [] = inl ([], refl, tt)
  insert_params_from-cases i (x ∷ xs) =
      elim (Result-cases (insert_params_for kind marshal x.args x.opts)) [
        | inr (why, w) ↦ inr (
          item i why,
          rw (w, insert_params_from) refl,
          ([], x, xs, [], why, refl, tt, w, ap (λ n. item n why) (omega arith)),
        )
        | inl (p, h) ↦
            let named = insert_params_for-named x.args x.opts p h in
            elim (insert_params_from-cases (suc i) xs) [
              | inl (ps, e, ys) ↦
                  inl (p ∷ ps, rw (h, insert_params_from) (rw e refl), (h, named.0, named.1, ys))
              | inr (e, f, (before, bad, rest, ps, why, split, ys, w, at)) ↦ inr (
                e,
                rw (h, insert_params_from) (rw f refl),
                (
                  x ∷ before,
                  bad,
                  rest,
                  p ∷ ps,
                  why,
                  ap (◌∷◌ x) split,
                  (h, named.0, named.1, ys),
                  w,
                  at ∙ ap (λ n. item n why) (omega arith),
                ),
              )
            ]
      ]

  -- InsertMany asks the store for nothing unless every item of the batch is valid, and then hands it the
  -- items' parameters in order, each with a kind and a queue that are not empty. Otherwise it reports the
  -- first item that is not valid, by its index, and changes nothing; and an empty batch writes nothing.
  pub client_insert_many-cases :
      {S : Type 0} (notify : Bool) (store : List InsertParams → S → S × Result Error (List JobRow))
      (items : List (InsertItem A)) (s : S × Bool)
      → let out = client_insert_many kind marshal notify store items s in
        ((ps : List InsertParams) × Yields items ps
          × (ps ≢ [])
          × (out ≡ store_batch kind marshal notify store ps s))
        ⊎ ((items ≡ []) × (out ≡ (s, ok [])))
        ⊎ ((e : ClientError) × (out ≡ (s, err e)) × FailsAt 0 items e)
  unfolding client_insert_many insert_params_for_many
  client_insert_many-cases notify store items s = elim (insert_params_from-cases 0 items) [
    | inr (e, f, fails) ↦ inr (inr (e, rw (f, client_insert_many) refl, fails))
    | inl (ps, f, ys) ↦ stored items ps f ys
  ]
    where
      stored :
          (xs : List (InsertItem A)) (ps : List InsertParams)
          → insert_params_from kind marshal 0 xs ≡ ok ps
          → Yields xs ps
          → let out = client_insert_many kind marshal notify store xs s in
            ((qs : List InsertParams) × Yields xs qs
              × (qs ≢ [])
              × (out ≡ store_batch kind marshal notify store qs s))
            ⊎ ((xs ≡ []) × (out ≡ (s, ok [])))
            ⊎ ((e : ClientError) × (out ≡ (s, err e)) × FailsAt 0 xs e)
      stored [] [] f ys = inr (inl (refl, refl))
      stored (x ∷ xs) (p ∷ ps) f ys =
          inl (p ∷ ps, ys, (λ h. ground arith), rw (f, client_insert_many) refl)
      stored [] (p ∷ ps) f ys = absurd ys
      stored (x ∷ xs) [] f ys = absurd ys
