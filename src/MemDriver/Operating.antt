-- ===== src/MemDriver/Operating.antt =====
-- What the operator calls and listings of memdriver.go promise.
use drover.Prelude.{
  ℕ, suc, ◌≡◌, refl, ◌≤◌, ◌<◌, min, zero, Bool, true, false, List, [], ◌∷◌, ◌++◌, some, arith, ltb,
  leb, Bool-cases, Option-cases, inl, inr, ◌⊎◌, Result, ok, err, take, drop, length, length-take,
  take-append-drop, Perm, Pairs, TotalOrder, sort_by, sort_by-perm, sort_by-Pairs, keep_if, ap, pos,
  leb_ℤ, sym, ◌∙◌,
}
use drover.Driver.{Time, JobState, JobRow, Error, not_found, invalid_transition}
use drover.MemDriver.Rows.{Store, find_row, put_row}
use drover.MemDriver.Operator.{
  cancellable, is_dead, cancel_row, redrive_row, operate, after_operator_miss, operate_retrying,
  operator_cancel, redrive_dead,
}
use drover.MemDriver.Read.{ListJobsParams, list_matches, newer, cap_to, list_jobs}

-- An operator call writes only over a row that is eligible at the moment of the write.
abbrev pub WritesEligible :
    (JobState → Bool) → (JobRow → JobRow) → ℕ → Store → Store × Result Error JobRow → Type 0
WritesEligible eligible change id t r =
    (row : JobRow) × (find_row id t.jobs ≡ some row)
    × (eligible row.state ≡ true)
    × (r ≡ (record t { jobs = put_row (change row) t.jobs }, ok (change row)))

operate-eligible :
    (eligible : JobState → Bool) (change : JobRow → JobRow) (id : ℕ) (t : Store)
    → WritesEligible eligible change id t (operate eligible change id t)
      ⊎ ((e : Error) × (operate eligible change id t ≡ (t, err e)))
unfolding operate
operate-eligible eligible change id t = elim (Option-cases (find_row id t.jobs)) [
  | inl e ↦ inr (not_found id, rw (e, operate) refl)
  | inr (r, e) ↦ elim (Bool-cases (eligible r.state)) [
    | inl on ↦ inl (r, e, on, rw (e, operate) (rw on refl))
    | inr off ↦ inr (invalid_transition id r.state, rw (e, operate) (rw off refl))
  ]
]

module _ (eligible : JobState → Bool) (change : JobRow → JobRow) (between between' : Store → Store)
    (id : ℕ) where
  abbrev pub Passes : Store → Store × Result Error JobRow → Type 0
  Passes s r =
      WritesEligible eligible change id s r
      ⊎ WritesEligible eligible change id (between' (between s)) r
      ⊎ ((e : Error) × (r ≡ (s, err e)))
      ⊎ ((e : Error) × (r ≡ (between s, err e)))
      ⊎ ((e : Error) × (r ≡ (between' (between s), err e)))

  operate_retrying-Passes :
      (s : Store) → Passes s (operate_retrying eligible change between between' id s)
  unfolding operate_retrying after_operator_miss
  operate_retrying-Passes s = elim (Option-cases (find_row id s.jobs)) [
    | inl e ↦ inr (inr (inl (not_found id, rw (e, operate_retrying) refl)))
    | inr (r, e) ↦ elim (Bool-cases (eligible r.state)) [
      | inl on ↦ inl (r, e, on, rw (e, operate_retrying) (rw on refl))
      | inr off ↦
          rw (e, operate_retrying)
            (rw off (elim (Option-cases (find_row id (between s).jobs)) [
              | inl e' ↦ inr (inr (inr (inl (not_found id, rw (e', after_operator_miss) refl))))
              | inr (r', e') ↦ elim (Bool-cases (eligible r'.state)) [
                | inr off' ↦ inr (
                    inr (
                      inr (
                        inl (
                          invalid_transition id r'.state,
                          rw (e', after_operator_miss) (rw off' refl),
                        ))))
                | inl on' ↦
                    rw (e', after_operator_miss)
                      (rw on' (elim (operate-eligible eligible change id (between' (between s))) [
                        | inl w ↦ inr (inl w)
                        | inr f ↦ inr (inr (inr (inr f)))
                      ]))
              ]
            ]))
    ]
  ]

-- Whatever other calls do while OperatorCancel has released the mutex, it writes at most once, and only
-- over a row that is available, scheduled, retryable or dead at that moment; a refusal leaves the store
-- as those calls left it.
pub operator_cancel-Passes :
    (now : Time) (between between' : Store → Store) (id : ℕ) (s : Store)
    → Passes cancellable
        (cancel_row now)
        between
        between'
        id
        s
        (operator_cancel now between between' id s)
unfolding operator_cancel
operator_cancel-Passes now between between' id s =
    operate_retrying-Passes cancellable (cancel_row now) between between' id s

-- Likewise RedriveDead, over a row that is dead at that moment.
pub redrive_dead-Passes :
    (now : Time) (between between' : Store → Store) (id : ℕ) (s : Store)
    → Passes is_dead
        (redrive_row now)
        between
        between'
        id
        s
        (redrive_dead now between between' id s)
unfolding redrive_dead
redrive_dead-Passes now between between' id s =
    operate_retrying-Passes is_dead (redrive_row now) between between' id s

newer-TotalOrder : TotalOrder JobRow newer
newer-TotalOrder = record { trans = λ x y z p q. ground arith; total = λ x y p. ground arith }

take_all {ℓ} : {A : Type ℓ} (n : ℕ) (xs : List A) → length xs ≤ n → take n xs ≡ xs
take_all zero [] h = refl
take_all zero (x ∷ xs) h = absurd (omega arith)
take_all (suc n) [] h = refl
take_all (suc n) (x ∷ xs) h = ap (◌∷◌ x) (take_all n xs (omega arith))

cap_to-take : (n : ℕ) (rows : List JobRow) → cap_to (pos n) rows ≡ take n rows
cap_to-take n rows = elim (Bool-cases (ltb n (length rows))) [
  | inl e ↦ rw e refl
  | inr e ↦ rw e (sym (take_all n rows (ground arith)))
]

-- ListJobs at a positive limit returns the newest matching jobs: its result, followed by the matching
-- jobs that it leaves out, holds each matching job exactly once in descending order of id, and it has
-- as many as the limit allows.
pub list_jobs-newest :
    (p : ListJobsParams) (n : ℕ) (s : Store)
    → p.limit ≡ pos n
    → 0 < n
    → (out : List JobRow) × (left : List JobRow) × (list_jobs p s ≡ ok out)
      × Perm (out ++ left) (keep_if (list_matches p) s.jobs)
      × Pairs (λ a b. leb b.id a.id ≡ true) (out ++ left)
      × (length out ≡ min n (length (out ++ left)))
unfolding list_jobs
list_jobs-newest p n s e h =
    let sorted = sort_by newer (keep_if (list_matches p) s.jobs) in
    let accepted : leb_ℤ p.limit (pos 0) ≡ false = ground arith in
    (
      take n sorted,
      drop n sorted,
      rw accepted (ap ok (ap (λ z. cap_to z sorted) e ∙ cap_to-take n sorted)),
      rw (take-append-drop n sorted) (sort_by-perm newer _),
      rw (take-append-drop n sorted) (sort_by-Pairs newer newer-TotalOrder _),
      rw (take-append-drop n sorted) (length-take n sorted),
    )
