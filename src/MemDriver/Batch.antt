-- ===== src/MemDriver/Batch.antt =====
-- InsertMany of memdriver.go against its meaning: the items inserted one by one, all or none.
use drover.Prelude.{
  ℕ, suc, ◌+◌, String, ◌≡◌, refl, ◌≤◌, ◌<◌, true, false, ◌||◌, List, [], ◌∷◌, ◌++◌, arith, ◌==◌,
  length, length-append, All, All-append, All-map, Bool-cases, inl, inr, Result, ok, err, ap, sym,
  subst, ◌∙◌,
}
use mathlib.Core.List.{append-nil, append_assoc}
use drover.Driver.{Time, InsertParams, JobRow, Error}
use drover.MemDriver.Rows.{Store, put_row}
use drover.MemDriver.Insert.{
  job_from_params, unique_active, active_conflict, extra_conflict, unique_conflict, insert,
  build_pending, put_rows, store_pending, insert_many,
}

-- The items inserted one by one, up to the first that is refused.
unfoldable pub insert_each : Time → List InsertParams → Store → Store × Result Error (List JobRow)
insert_each now [] s = (s, ok [])
insert_each now (params ∷ rest) s =
    let first = insert now params s in
    let others = insert_each now rest first.0 in
    elim first.1 [
      | err e ↦ (s, err e)
      | ok row ↦ (others.0, elim others.1 [ err e ↦ err e | ok rows ↦ ok (row ∷ rows) ])
    ]

-- A refused batch changes nothing.
abbrev pub all_or_none :
    Store → Store × Result Error (List JobRow) → Store × Result Error (List JobRow)
all_or_none s r = elim r.1 [ err e ↦ (s, err e) | ok rows ↦ r ]

put_row-append :
    (r : JobRow) (rows : List JobRow)
    → All (λ x. x.id < r.id) rows
    → put_row r rows ≡ rows ++ r ∷ []
unfolding put_row
put_row-append r [] h = refl
put_row-append r (x ∷ rows) h = ground (arith, put_row-append r rows h.1)

put_rows-snoc :
    (xs : List JobRow) (r : JobRow) (jobs : List JobRow)
    → put_rows (xs ++ r ∷ []) jobs ≡ put_row r (put_rows xs jobs)
unfolding put_rows
put_rows-snoc [] r jobs = refl
put_rows-snoc (x ∷ xs) r jobs = put_rows-snoc xs r (put_row x jobs)

module _ (queue kind key : String) where
  active_conflict-append :
      (xs ys : List JobRow)
      → active_conflict queue kind key (xs ++ ys)
        ≡ (active_conflict queue kind key xs || active_conflict queue kind key ys)
  unfolding active_conflict
  active_conflict-append [] ys = refl
  active_conflict-append (x ∷ xs) ys = ground (arith, active_conflict-append xs ys)

  -- Rows that a batch builds are all active.
  active_conflict-extra :
      (xs : List JobRow)
      → All (λ r. unique_active r.state ≡ true) xs
      → active_conflict queue kind key xs ≡ extra_conflict queue kind key xs
  unfolding active_conflict extra_conflict
  active_conflict-extra [] h = refl
  active_conflict-extra (x ∷ xs) h = ground (arith, active_conflict-extra xs h.1)

job_from_params-active :
    (id : ℕ) (params : InsertParams) (now : Time)
    → unique_active (job_from_params id params now).state ≡ true
unfolding job_from_params
job_from_params-active id params now = ground arith

job_from_params-id :
    (id : ℕ) (params : InsertParams) (now : Time) → (job_from_params id params now).id ≡ id
unfolding job_from_params
job_from_params-id id params now = refl

module _ (now : Time) (s : Store) where
  -- The store once the rows of `pending` are in.
  abbrev stage : List JobRow → Store
  stage pending = record { next_id = s.next_id + length pending; jobs = s.jobs ++ pending }

  -- What holds of `pending` while the loop builds it.
  record Built (pending : List JobRow) : Type 0 where
    below : All (λ r. r.id ≤ s.next_id + length pending) (s.jobs ++ pending)
    active : All (λ r. unique_active r.state ≡ true) pending
    placed : put_rows pending s.jobs ≡ s.jobs ++ pending

  abbrev item : List JobRow → InsertParams → JobRow
  item pending params = job_from_params (s.next_id + length pending + 1) params now

  conflict-stage :
      (pending : List JobRow) (params : InsertParams)
      → Built pending
      → unique_conflict (stage pending) params [] ≡ unique_conflict s params pending
  unfolding unique_conflict extra_conflict
  conflict-stage pending params b = ground (
    arith,
    active_conflict-append params.queue params.kind params.unique_key s.jobs pending,
    active_conflict-extra params.queue params.kind params.unique_key pending b.active,
  )

  snoc-jobs :
      (pending : List JobRow) (params : InsertParams)
      → Built pending
      → put_row (item pending params) (s.jobs ++ pending)
        ≡ s.jobs ++ (pending ++ item pending params ∷ [])
  snoc-jobs pending params b =
      put_row-append (item pending params) (s.jobs ++ pending) (
        All-map (λ r. r.id ≤ s.next_id + length pending)
          (λ r h. omega (arith, job_from_params-id (s.next_id + length pending + 1) params now))
          (s.jobs ++ pending) b.below)
      ∙ append_assoc s.jobs pending (item pending params ∷ [])

  Built-snoc :
      (pending : List JobRow) (params : InsertParams)
      → Built pending
      → Built (pending ++ item pending params ∷ [])
  Built-snoc pending params b = record {
    below = rw (← append_assoc s.jobs pending (item pending params ∷ [])) (
        All-append _ (s.jobs ++ pending) (item pending params ∷ [])
          (All-map (λ r. r.id ≤ s.next_id + length pending)
            (λ r h. omega (arith, length-append pending (item pending params ∷ [])))
            (s.jobs ++ pending) b.below)
          (
            omega (
              arith,
              length-append pending (item pending params ∷ []),
              job_from_params-id (s.next_id + length pending + 1) params now,
            ),
            tt,
          ));
    active =
        All-append _ pending (item pending params ∷ []) b.active
          (job_from_params-active _ params now, tt);
    placed =
        put_rows-snoc pending (item pending params) s.jobs
        ∙ ap (put_row (item pending params)) b.placed
        ∙ snoc-jobs pending params b;
  }

  stage-snoc :
      (pending : List JobRow) (params : InsertParams)
      → Built pending
      → record {
        next_id = s.next_id + length pending + 1;
        jobs = put_row (item pending params) (s.jobs ++ pending);
      }
        ≡ stage (pending ++ item pending params ∷ [])
  stage-snoc pending params b =
      let n : s.next_id + length pending + 1
          ≡ s.next_id + length (pending ++ item pending params ∷ []) =
        omega (arith, length-append pending (item pending params ∷ [])) in
      λ i. record { next_id = n i; jobs = snoc-jobs pending params b i }

  insert-stage :
      (pending : List JobRow) (params : InsertParams)
      → Built pending
      → unique_conflict s params pending ≡ false
      → insert now params (stage pending)
        ≡ (stage (pending ++ item pending params ∷ []), ok (item pending params))
  unfolding insert
  insert-stage pending params b free =
      rw (conflict-stage pending params b, free)
        (λ i. (stage-snoc pending params b i, ok (item pending params)))

  -- How the loop's result compares with inserting what is left one by one.
  abbrev Agree :
      List JobRow
      → List InsertParams
      → Result Error (List JobRow)
      → Store × Result Error (List JobRow)
      → Type 0
  Agree pending rest (err e) r = r.1 ≡ err e
  Agree pending rest (ok out) r =
      (rows : List JobRow) × (out ≡ pending ++ rows)
      × (r ≡ (stage out, ok rows))
      × Built out
      × (length out ≡ length pending + length rest)

  -- One more row at the front of what was inserted.
  abbrev with_row : JobRow → Store × Result Error (List JobRow) → Store × Result Error (List JobRow)
  with_row row others = (others.0, elim others.1 [ err e ↦ err e | ok rows ↦ ok (row ∷ rows) ])

  insert_each-ok :
      (params : InsertParams) (rest : List InsertParams) (t t' : Store) (row : JobRow)
      → insert now params t ≡ (t', ok row)
      → insert_each now (params ∷ rest) t ≡ with_row row (insert_each now rest t')
  unfolding insert_each
  insert_each-ok params rest t t' row e =
      rw (e, insert_each) (ap (λ p. with_row row (insert_each now rest p.0)) e)

  Agree-with_row :
      (pending : List JobRow) (params : InsertParams) (rest : List InsertParams)
      (b : Result Error (List JobRow)) (r : Store × Result Error (List JobRow))
      → Agree (pending ++ item pending params ∷ []) rest b r
      → Agree pending (params ∷ rest) b (with_row (item pending params) r)
  Agree-with_row pending params rest (err e) r h = ground arith
  Agree-with_row pending params rest (ok out) r (rows, o, e, built, len) = (
    item pending params ∷ rows,
    o ∙ append_assoc pending (item pending params ∷ []) rows,
    rw e refl,
    built,
    omega (arith, length-append pending (item pending params ∷ [])),
  )

  build_pending-Agree :
      (rest : List InsertParams) (pending : List JobRow) (n : ℕ)
      → n ≡ length pending
      → Built pending
      → Agree pending rest
          (build_pending now s n rest pending)
          (insert_each now rest (stage pending))
  unfolding build_pending
  build_pending-Agree [] pending n len b =
      ([], sym (append-nil pending), unfold insert_each in refl, b, omega arith)
  build_pending-Agree (params ∷ rest) pending n len b =
      elim (Bool-cases (unique_conflict s params pending)) [
        | inl taken ↦
            rw taken (unfold insert insert_each in ground (arith, conflict-stage pending params b))
        | inr free ↦
            rw (free, len, insert_each-ok params rest _ _ _ (insert-stage pending params b free))
              (Agree-with_row pending params rest _ _ (
                build_pending-Agree rest (pending ++ item pending params ∷ []) (length pending + 1)
                  (omega (arith, length-append pending (item pending params ∷ [])))
                  (Built-snoc pending params b)))
      ]

nonempty : (n : ℕ) → (suc n == 0) ≡ false
nonempty n = ground arith

-- From ids that the store has given out, InsertMany is the items inserted one by one in order, with
-- the same rows, and leaves the store as it was if one of them is refused.
pub insert_many-insert_each :
    (now : Time) (batch : List InsertParams) (s : Store)
    → All (λ r. r.id ≤ s.next_id) s.jobs
    → insert_many now batch s ≡ all_or_none s (insert_each now batch s)
unfolding insert_many
insert_many-insert_each now [] s h = unfold insert_each in refl
insert_many-insert_each now (params ∷ rest) s h = rw (nonempty (length rest)) (
    finish (build_pending now s 0 (params ∷ rest) []) _ (
      subst
        (λ t.
          Agree now s [] (params ∷ rest) (build_pending now s 0 (params ∷ rest) [])
            (insert_each now (params ∷ rest) t))
        (λ i. record { next_id = zero-next i; jobs = append-nil s.jobs i })
        (build_pending-Agree now s (params ∷ rest) [] 0 refl start)))
  where
    zero-next : s.next_id + 0 ≡ s.next_id
    zero-next = omega arith

    start : Built now s []
    start = record {
      below = rw (append-nil s.jobs, zero-next) h;
      active = tt;
      placed = unfold put_rows in sym (append-nil s.jobs);
    }

    finish :
        (b : Result Error (List JobRow)) (r : Store × Result Error (List JobRow))
        → Agree now s [] (params ∷ rest) b r
        → store_pending (suc (length rest)) s b ≡ all_or_none s r
    finish (err e) r g = rw g
    finish (ok out) r (rows, o, e, built, len) =
        let n : s.next_id + suc (length rest) ≡ s.next_id + length out = omega arith in
        rw (e, ← o) (λ i. (record { next_id = n i; jobs = built.placed i }, ok out))
