-- ===== src/Inspector/Laws.antt =====
-- The operator's calls over memdriver.
use drover.Prelude.{
  ℕ, ◌++◌, ◌+◌, String, ◌≡◌, refl, ◌≤◌, ◌<◌, ◌⊎◌, inl, inr, min, length, Bool, true, false, List,
  [], ◌∷◌, Option, none, some, arith, str_eq, leb, if◌then◌else◌, Bool-cases, ok, err, ℤ, pos,
  negsuc, ltb_ℤ, Pairs, Perm, keep_if, ap,
}
use drover.Driver.{Time, Bytes, InsertParams, JobRow}
use drover.MemDriver.Rows.{Store, find_row}
use drover.MemDriver.Insert.{insert, unique_conflict, job_from_params}
use drover.MemDriver.RowLaws.{find_row-put_row}
use drover.MemDriver.Read.{list_jobs, list_matches}
use drover.MemDriver.Operating.{list_jobs-newest}
use drover.Client.Enqueue.{InsertOpts, row_from_driver, rows_from_driver}
use drover.Inspector.{
  ListJobsOpts, limit_exceeds, default_list_limit, max_list_limit, list_params, inspect_list,
  enqueue_params, enqueue,
}

rows_from_driver-same : (rows : List JobRow) → rows_from_driver rows ≡ rows
unfolding rows_from_driver row_from_driver
rows_from_driver-same [] = refl
rows_from_driver-same (r ∷ rows) = ap (◌∷◌ r) (rows_from_driver-same rows)

-- The limit that ListJobs uses, which is positive.
list_params-limit :
    (opts : Option ListJobsOpts) → (n : ℕ) × ((list_params opts).limit ≡ pos n) × (0 < n)
unfolding list_params
list_params-limit none = (default_list_limit, refl, omega arith)
list_params-limit (some o) = chosen o.limit
  where
    chosen :
        (l : ℤ)
        → (n : ℕ) × ((if ltb_ℤ (pos 0) l then l else pos default_list_limit) ≡ pos n) × (0 < n)
    chosen (negsuc n) = (default_list_limit, ground arith, omega arith)
    chosen (pos n) = elim (Bool-cases (ltb_ℤ (pos 0) (pos n))) [
      | inl e ↦ (n, rw e refl, ground arith)
      | inr e ↦ (default_list_limit, rw e refl, omega arith)
    ]

-- Over memdriver the operator's ListJobs refuses a limit above a thousand and otherwise always answers:
-- with the newest jobs that match, in descending order of id and at most a thousand, and with a hundred
-- at most if no positive limit is asked for.
pub inspect_list-newest :
    (opts : Option ListJobsOpts) (s : Store)
    → let p = list_params opts in
      (n : ℕ) × (p.limit ≡ pos n)
      × (0 < n)
      × (((max_list_limit < n) × (inspect_list list_jobs opts s ≡ err (limit_exceeds p.limit)))
          ⊎ ((n ≤ max_list_limit)
              × (out : List JobRow) × (left : List JobRow) × (inspect_list list_jobs opts s
                  ≡ ok out)
              × Perm (out ++ left) (keep_if (list_matches p) s.jobs)
              × Pairs (λ a b. leb b.id a.id ≡ true) (out ++ left)
              × (length out ≡ min n (length (out ++ left)))))
unfolding inspect_list
inspect_list-newest opts s =
    let p = list_params opts in
    let (n, e, positive) = list_params-limit opts in
    (
      n,
      e,
      positive,
      elim (Bool-cases (ltb_ℤ (pos max_list_limit) p.limit)) [
        | inl above ↦ inl (ground arith, rw above refl)
        | inr below ↦
            let (out, left, found, all, order, count) = list_jobs-newest p n s e positive in
            inr (
              ground arith,
              out,
              left,
              rw (below, found) (ap ok (rows_from_driver-same out)),
              all,
              order,
              count,
            )
      ],
    )

enqueue_params-unkeyed :
    (kind : String) (args : Bytes) (opts : Option InsertOpts)
    → (enqueue_params kind args opts).unique_key ≡ ""
unfolding enqueue_params
enqueue_params-unkeyed kind args none = refl
enqueue_params-unkeyed kind args (some o) = refl

insert-unkeyed :
    (now : Time) (params : InsertParams) (s : Store)
    → params.unique_key ≡ ""
    → let r = job_from_params (s.next_id + 1) params now in
      ((insert now params s).1 ≡ ok r)
      × (find_row r.id (insert now params s).0.jobs ≡ some r)
      × (r.unique_key ≡ "")
unfolding insert unique_conflict job_from_params
insert-unkeyed now params s h =
    let r = job_from_params (s.next_id + 1) params now in
    let open_slot : str_eq params.unique_key "" ≡ true = ap (λ k. str_eq k "") h in
    rw open_slot (refl, ground (arith, find_row-put_row r.id r s.jobs), h)

-- Over memdriver the operator's Enqueue of a named kind and valid arguments always inserts, whatever
-- the unique key in its options and whichever slots are taken: the new job carries no key.
pub enqueue-unkeyed :
    (valid : Bytes → Bool) (now : Time) (kind : String) (args : Bytes) (opts : Option InsertOpts)
    (s : Store)
    → str_eq kind "" ≡ false
    → valid args ≡ true
    → let after = enqueue valid (insert now) kind args opts s in
      (r : JobRow) × (after.1 ≡ ok r) × (find_row r.id after.0.jobs ≡ some r) × (r.unique_key ≡ "")
unfolding enqueue row_from_driver
enqueue-unkeyed valid now kind args opts s named v =
    let params = enqueue_params kind args opts in
    let (done, stored, unkeyed) =
      insert-unkeyed now params s (enqueue_params-unkeyed kind args opts) in
    (
      job_from_params (s.next_id + 1) params now,
      rw (named, v, done, enqueue) refl,
      rw (named, v, enqueue) stored,
      unkeyed,
    )
