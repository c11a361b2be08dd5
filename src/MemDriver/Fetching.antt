-- ===== src/MemDriver/Fetching.antt =====
-- What FetchAvailable and FetchExpired of memdriver.go hand out.
use drover.Prelude.{
  ℕ, ◌<◌, ◌⊎◌, inl, inr, Bool-cases, Pairs-map, ◌≤◌, length-map, suc, ◌+◌, ◌≡◌, refl, ◌≢◌, min,
  String, true, false, List, [], ◌∷◌, map, some, arith, ◌==◌, All, Pairs, All-map, All-take, length,
  take, length-take, take-append-drop, TotalOrder, sort_by-Pairs, sort_by-perm, Perm, keep_if, zero,
  drop, ap, ◌++◌, sym, ◌∙◌,
}
use drover.Driver.{Time, JobRow}
use drover.MemDriver.Rows.{Store, find_row, put_row}
use drover.MemDriver.RowLaws.{find_row-put_row}
use drover.MemDriver.Claim.{
  is_due, by_scheduled_at, row_before, select_rows, claim, reclaim, is_expired, by_leased_until,
  take_rows, fetch_available, fetch_expired,
}
use drover.MemDriver.Ids.{OtherId, Ids, select_rows-OtherId}

pub row_before-TotalOrder : (order : JobRow → Time) → TotalOrder JobRow (row_before order)
unfolding row_before
row_before-TotalOrder order = record {
  trans = λ x y z p q. ground arith;
  total = λ x y p. ground arith;
}

module _ (change : JobRow → JobRow) (same_id : (r : JobRow) → (change r).id ≡ r.id)
    (limit : ℕ) where
  -- With `n` rows taken and room for `m`, the loop takes the next `m` rows.
  pub take_rows-take :
      (n m : ℕ) (rows jobs : List JobRow)
      → n + m ≡ limit
      → (take_rows change limit n rows jobs).0 ≡ map change (take m rows)
  unfolding take_rows
  take_rows-take n zero [] jobs h = refl
  take_rows-take n (suc m) [] jobs h = refl
  take_rows-take n zero (row ∷ rows) jobs h =
      let full : (n == limit) ≡ true = ground arith in rw full refl
  take_rows-take n (suc m) (row ∷ rows) jobs h =
      let room : (n == limit) ≡ false = ground arith in
      rw room (
        ap (◌∷◌ (change row))
          (take_rows-take (n + 1) m rows (put_row (change row) jobs) (omega arith)))

  -- A row that is not taken stays.
  take_rows-others :
      (id n m : ℕ) (rows jobs : List JobRow)
      → n + m ≡ limit
      → All (λ r. r.id ≢ id) (take m rows)
      → find_row id (take_rows change limit n rows jobs).1 ≡ find_row id jobs
  unfolding take_rows
  take_rows-others id n m [] jobs h o = refl
  take_rows-others id n zero (row ∷ rows) jobs h o =
      let full : (n == limit) ≡ true = ground arith in rw full refl
  take_rows-others id n (suc m) (row ∷ rows) jobs h o =
      let room : (n == limit) ≡ false = ground arith in
      rw room (
        take_rows-others id (n + 1) m rows (put_row (change row) jobs) (omega arith) o.1
        ∙ ground (arith, find_row-put_row id (change row) jobs, same_id row))

  -- A row that is taken is stored as changed.
  take_rows-stored :
      (n m : ℕ) (rows jobs : List JobRow)
      → n + m ≡ limit
      → Pairs OtherId rows
      → All
          (λ r. find_row r.id (take_rows change limit n rows jobs).1 ≡ some (change r))
          (take m rows)
  unfolding take_rows
  take_rows-stored n zero rows jobs h d = tt
  take_rows-stored n (suc m) [] jobs h d = tt
  take_rows-stored n (suc m) (row ∷ rows) jobs h d =
      let room : (n == limit) ≡ false = ground arith in
      (
        rw room (
            take_rows-others row.id (n + 1) m rows (put_row (change row) jobs) (omega arith) (
              All-take (λ r. r.id ≢ row.id) m rows
                (All-map (OtherId row) (λ x o e. o (sym e)) rows d.0))
            ∙ ground (arith, find_row-put_row row.id (change row) jobs, same_id row)),
        All-map
            (λ r.
              find_row r.id (take_rows change limit (n + 1) rows (put_row (change row) jobs)).1
              ≡ some (change r))
            (λ r e. rw room e) (take m rows)
            (take_rows-stored (n + 1) m rows (put_row (change row) jobs) (omega arith) d.1),
      )

claim-id : (until : Time) (r : JobRow) → (claim until r).id ≡ r.id
unfolding claim
claim-id until r = refl

-- Due earlier, or at the same time with a lower id.
abbrev pub Earlier : JobRow → JobRow → Type 0
Earlier a b =
    (a.scheduled_at < b.scheduled_at) ⊎ ((a.scheduled_at ≡ b.scheduled_at) × (a.id ≤ b.id))

row_before-Earlier : (a b : JobRow) → row_before by_scheduled_at a b ≡ true → Earlier a b
unfolding row_before by_scheduled_at
row_before-Earlier a b h = elim (Bool-cases (a.scheduled_at == b.scheduled_at)) [
  | inl e ↦ inr (ground arith, ground arith)
  | inr e ↦ inl (ground arith)
]

-- FetchAvailable splits the due jobs of the queue, earliest due time first and then lowest id, in two:
-- it hands out the first part, claimed, which has as many jobs as the limit allows, and leaves the
-- other; a chosen job is stored as it was handed out, and every other row stays.
pub fetch_available-earliest :
    (now : Time) (queue : String) (lease_for : Time) (limit : ℕ) (s : Store)
    → Ids s
    → let after = fetch_available now queue lease_for limit s in
      (chosen : List JobRow) × (left : List JobRow) × (after.1
        ≡ map (claim (now + lease_for)) chosen)
      × Perm (chosen ++ left) (keep_if (is_due now queue) s.jobs)
      × Pairs Earlier (chosen ++ left)
      × (length chosen ≡ min limit (length (chosen ++ left)))
      × All (λ r. find_row r.id after.0.jobs ≡ some (claim (now + lease_for) r)) chosen
      × ((id : ℕ) → All (λ r. r.id ≢ id) chosen → find_row id after.0.jobs ≡ find_row id s.jobs)
unfolding fetch_available
fetch_available-earliest now queue lease_for limit s v =
    let change = claim (now + lease_for) in
    let due = select_rows by_scheduled_at (is_due now queue) s.jobs in
    (
      take limit due,
      drop limit due,
      take_rows-take change (claim-id _) limit 0 limit due s.jobs (omega arith),
      rw (take-append-drop limit due) (unfold select_rows in sort_by-perm _ _),
      rw (take-append-drop limit due) (
          Pairs-map row_before-Earlier due
            (unfold select_rows in sort_by-Pairs _ (row_before-TotalOrder by_scheduled_at) _)),
      rw (take-append-drop limit due) (length-take limit due),
      take_rows-stored change (claim-id _) limit 0 limit due s.jobs (omega arith)
          (select_rows-OtherId by_scheduled_at (is_due now queue) s.jobs v.distinct),
      λ id others.
          take_rows-others change (claim-id _) limit id 0 limit due s.jobs (omega arith) others,
    )

pub fetch_expired-limit :
    (now lease_for : Time) (limit : ℕ) (s : Store)
    → length (fetch_expired now lease_for limit s).1 ≤ limit
unfolding fetch_expired reclaim
fetch_expired-limit now lease_for limit s =
    let expired = select_rows by_leased_until (is_expired now) s.jobs in
    let change = reclaim (now + lease_for) in
    rw (take_rows-take change (λ r. refl) limit 0 limit expired s.jobs (omega arith))
      (omega (arith, length-map change (take limit expired), length-take limit expired))
