-- ===== src/MemDriver/Rows.antt =====
-- `Driver.jobs map[int64]*driver.JobRow`: rows by id, in the order of insertion. A row that the
-- source changes through its pointer is written back under its id.
use drover.Prelude.{ℕ, List, [], ◌∷◌, Option, none, some, ◌==◌, if◌then◌else◌}
use drover.Driver.{JobRow}

pub record Store : Type 0 where
  pub next_id : ℕ
  pub jobs : List JobRow

-- `d.jobs[id]`.
unfoldable pub find_row : ℕ → List JobRow → Option JobRow
find_row id [] = none
find_row id (row ∷ rows) = if row.id == id then some row else find_row id rows

-- `d.jobs[row.ID] = row`.
unfoldable pub put_row : JobRow → List JobRow → List JobRow
put_row r [] = r ∷ []
put_row r (row ∷ rows) = if row.id == r.id then r ∷ rows else row ∷ put_row r rows
