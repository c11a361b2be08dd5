-- ===== src/MemDriver/Ids.antt =====
-- The ids of memdriver.go's map: no two rows share one, and `nextID` is past them all. Loops over
-- selected rows follow a rule: each row that they change is the one stored under its id.
use drover.Prelude.{
  ℕ, ◌+◌, ◌≡◌, ◌≢◌, ◌≤◌, Bool, true, List, [], ◌∷◌, some, arith, ◌==◌, All, Pairs, All-map,
  All-both, All-keep_if, Pairs-keep_if, Bool-cases, inl, inr, All-sort_by, sort_by-Pairs_symm, sym,
  ◌∙◌, ap, subst,
}
use mathlib.Core.Option.{some-injective}
use drover.Driver.{Time, JobRow}
use drover.MemDriver.Rows.{Store, find_row, put_row}
use drover.MemDriver.RowLaws.{
  find_row-put_row, find_row-id, All-put_row, All-find_row, Pairs-put_row, Pairs-put_row_new,
}
use drover.MemDriver.Claim.{row_before, select_rows, take_rows}

abbrev pub OtherId : JobRow → JobRow → Type 0
OtherId a b = a.id ≢ b.id

pub record Ids (s : Store) : Type 0 where
  pub bounded : All (λ r. r.id ≤ s.next_id) s.jobs
  pub distinct : Pairs OtherId s.jobs

-- Row `r` is the one stored under its id.
abbrev pub IsStored : List JobRow → JobRow → Type 0
IsStored jobs r = find_row r.id jobs ≡ some r

pub All-IsStored : (rows : List JobRow) → Pairs OtherId rows → All (IsStored rows) rows
unfolding find_row
All-IsStored [] d = tt
All-IsStored (x ∷ xs) d = (
  ground arith,
  All-map (λ r. OtherId x r × IsStored xs r) (λ r h. ground (arith, h.0, h.1)) xs
      (All-both (OtherId x) (IsStored xs) xs d.0 (All-IsStored xs d.1)),
)

module _ (order : JobRow → Time) (keep : JobRow → Bool) (jobs : List JobRow) where
  -- A selected row is stored, and passed the test.
  pub All-select_rows :
      Pairs OtherId jobs
      → All (λ r. IsStored jobs r × (keep r ≡ true)) (select_rows order keep jobs)
  unfolding select_rows
  All-select_rows d =
      All-sort_by (row_before order) (λ r. IsStored jobs r × (keep r ≡ true)) _
        (All-keep_if (IsStored jobs) keep jobs (All-IsStored jobs d))

  pub select_rows-OtherId : Pairs OtherId jobs → Pairs OtherId (select_rows order keep jobs)
  unfolding select_rows
  select_rows-OtherId d =
      sort_by-Pairs_symm (row_before order) OtherId (λ a b h e. h (sym e)) _
        (Pairs-keep_if OtherId keep jobs d)

-- A write to another row leaves a stored row stored.
pub IsStored-put_row :
    (x r : JobRow) (jobs : List JobRow)
    → x.id ≢ r.id
    → IsStored jobs r
    → IsStored (put_row x jobs) r
IsStored-put_row x r jobs ne h = ground (arith, find_row-put_row r.id x jobs)

module _ {κ} {P : JobRow → Type 0} (Q : List JobRow → Type κ) (change : JobRow → JobRow)
    (same_id : (r : JobRow) → (change r).id ≡ r.id)
    (keeps : (jobs : List JobRow) (r : JobRow)
      → Q jobs
      → IsStored jobs r
      → P r
      → Q (put_row (change r) jobs)) where
  pub take_rows-keeps :
      (limit n : ℕ) (rows jobs : List JobRow)
      → All (λ r. IsStored jobs r × P r) rows
      → Pairs OtherId rows
      → Q jobs
      → Q (take_rows change limit n rows jobs).1
  unfolding take_rows
  take_rows-keeps limit n [] jobs h d q = q
  take_rows-keeps limit n (row ∷ rows) jobs h d q = elim (Bool-cases (n == limit)) [
    | inl e ↦ rw e q
    | inr e ↦ rw e (
        take_rows-keeps limit (n + 1) rows (put_row (change row) jobs)
          (All-map (λ r. OtherId row r × (IsStored jobs r × P r))
            (λ r g. (
              IsStored-put_row (change row) r jobs (λ i. g.0 (sym (same_id row) ∙ i)) g.1.0,
              g.1.1,
            ))
            rows (All-both (OtherId row) _ rows d.0 h.1))
          d.1 (keeps jobs row q h.0.0 h.0.1))
  ]

-- A write over a stored row keeps the ids.
pub put_row-Ids :
    (s : Store) (r r' : JobRow)
    → find_row r'.id s.jobs ≡ some r
    → Ids s
    → Ids (record s { jobs = put_row r' s.jobs })
put_row-Ids s r r' e v =
    let same : r.id ≡ r'.id = find_row-id r'.id r s.jobs e in
    record {
      bounded =
          All-put_row (λ x. x.id ≤ s.next_id) r' s.jobs
            (rw (← same) (All-find_row (λ x. x.id ≤ s.next_id) r'.id r s.jobs e v.bounded))
            v.bounded;
      distinct =
          Pairs-put_row OtherId r r' s.jobs (λ x h i. h (i ∙ sym same)) (λ x h i. h (same ∙ i)) e
            v.distinct;
    }

-- So does a write of a row under the next id.
pub put_row_new-Ids :
    (s : Store) (r : JobRow)
    → r.id ≡ s.next_id + 1
    → Ids s
    → Ids (record s { next_id = s.next_id + 1; jobs = put_row r s.jobs })
put_row_new-Ids s r e v = record {
  bounded =
      All-put_row (λ x. x.id ≤ s.next_id + 1) r s.jobs (omega arith)
        (All-map (λ x. x.id ≤ s.next_id) (λ x h. omega arith) s.jobs v.bounded);
  distinct =
      Pairs-put_row_new OtherId r s.jobs
        (All-map (λ x. x.id ≤ s.next_id) (λ x h. omega arith) s.jobs v.bounded)
        (All-map (λ x. x.id ≤ s.next_id) (λ x h i. omega arith) s.jobs v.bounded) v.distinct;
}

-- A claim about the row stored under `id` is a claim about every row with that id.
pub All-at {κ} :
    (P : JobRow → Type κ) (id : ℕ) (r : JobRow) (rows : List JobRow)
    → Pairs OtherId rows
    → find_row id rows ≡ some r
    → P r
    → All (λ x. x.id ≡ id → P x) rows
All-at P id r rows d e p =
    All-map (IsStored rows)
      (λ x st i. subst P (some-injective r x (sym e ∙ ap (λ j. find_row j rows) (sym i) ∙ st)) p)
      rows (All-IsStored rows d)
