-- ===== src/MemDriver/RowLaws.antt =====
-- Laws of the row map of memdriver.go: lookup after a write, and predicates across a write.
use drover.Prelude.{
  ℕ, ◌≡◌, refl, List, [], ◌∷◌, some, arith, ◌==◌, if◌then◌else◌, All, Pairs, Bool-cases, inl, inr,
  ◌<◌, subst, All-map,
}
use drover.Driver.{JobRow}
use drover.MemDriver.Rows.{find_row, put_row}

pub find_row-put_row :
    (id : ℕ) (r : JobRow) (rows : List JobRow)
    → find_row id (put_row r rows) ≡ (if r.id == id then some r else find_row id rows)
unfolding find_row put_row
find_row-put_row id r [] = refl
find_row-put_row id r (row ∷ rows) = ground (arith, find_row-put_row id r rows)

pub find_row-id : (id : ℕ) (r : JobRow) (rows : List JobRow) → find_row id rows ≡ some r → r.id ≡ id
unfolding find_row
find_row-id id r [] h = cc
find_row-id id r (row ∷ rows) h = ground (arith, find_row-id id r rows)

module _ {κ} (P : JobRow → Type κ) where
  pub All-put_row : (r : JobRow) (rows : List JobRow) → P r → All P rows → All P (put_row r rows)
  unfolding put_row
  All-put_row r [] p h = (p, tt)
  All-put_row r (row ∷ rows) p h = elim (Bool-cases (row.id == r.id)) [
    | inl e ↦ rw e (p, h.1)
    | inr e ↦ rw e (h.0, All-put_row r rows p h.1)
  ]

  pub All-find_row :
      (id : ℕ) (r : JobRow) (rows : List JobRow) → find_row id rows ≡ some r → All P rows → P r
  unfolding find_row
  All-find_row id r [] e h = cc
  All-find_row id r (row ∷ rows) e h = elim (Bool-cases (row.id == id)) [
    | inl same ↦ subst P (ground arith) h.0
    | inr other ↦ All-find_row id r rows (ground arith) h.1
  ]

-- A write over a row keeps a relation between the rows that the new row stands in wherever the old
-- one did.
module _ {κ} (R : JobRow → JobRow → Type κ) (old new : JobRow) where
  All-put_row_over :
      (x : JobRow) (rows : List JobRow)
      → (R x old → R x new)
      → find_row new.id rows ≡ some old
      → All (R x) rows
      → All (R x) (put_row new rows)
  unfolding find_row put_row
  All-put_row_over x [] f e h = cc
  All-put_row_over x (row ∷ rows) f e h = elim (Bool-cases (row.id == new.id)) [
    | inl same ↦ rw same (f (subst (R x) (ground arith) h.0), h.1)
    | inr other ↦ rw other (h.0, All-put_row_over x rows f (ground arith) h.1)
  ]

  pub Pairs-put_row :
      (rows : List JobRow)
      → ((x : JobRow) → R x old → R x new)
      → ((x : JobRow) → R old x → R new x)
      → find_row new.id rows ≡ some old
      → Pairs R rows
      → Pairs R (put_row new rows)
  unfolding find_row put_row
  Pairs-put_row [] f g e h = cc
  Pairs-put_row (row ∷ rows) f g e h = elim (Bool-cases (row.id == new.id)) [
    | inl same ↦
        rw same (All-map (R old) g rows (subst (λ y. All (R y) rows) (ground arith) h.0), h.1)
    | inr other ↦ rw other (
      All-put_row_over row rows (f row) (ground arith) h.0,
      Pairs-put_row rows f g (ground arith) h.1,
    )
  ]

-- A write under a new id goes to the end.
pub Pairs-put_row_new {κ} :
    (R : JobRow → JobRow → Type κ) (r : JobRow) (rows : List JobRow)
    → All (λ x. x.id < r.id) rows
    → All (λ x. R x r) rows
    → Pairs R rows
    → Pairs R (put_row r rows)
unfolding put_row
Pairs-put_row_new R r [] lt h ps = (tt, tt)
Pairs-put_row_new R r (row ∷ rows) lt h ps = elim (Bool-cases (row.id == r.id)) [
  | inl same ↦ absurd (ground arith)
  | inr other ↦
      rw other (All-put_row (R row) r rows h.0 ps.0, Pairs-put_row_new R r rows lt.1 h.1 ps.1)
]
