-- ===== src/PgDriver/Marks.antt =====
-- The Mark methods of pgdriver.go against those of memdriver.go.
use drover.Prelude.{ℕ, ◌≡◌, refl, ◌≤◌, false, List, [], ◌∷◌, ◌++◌, map, some, arith, pos, ltb_ℤ}
use mathlib.Core.Option
use drover.Driver.{Bytes, JobRow, Codec}
use drover.MemDriver.Rows.{Store}
use drover.MemDriver.Mark
use drover.Sql.{DbJob, Table, find_job}
use drover.Sql.Statements
use drover.Sql.Reads
use drover.PgDriver.{Wire, max_int32, attempt_arg}
use drover.PgDriver.Rows.{store_of}
use drover.PgDriver.Calls

-- attemptArg keeps an attempt that the column can hold.
pub attempt_arg-fits : (n : ℕ) → n ≤ max_int32 → attempt_arg (pos n) ≡ n
unfolding attempt_arg
attempt_arg-fits n h =
    let low : ltb_ℤ (pos n) (pos 0) ≡ false = ground arith in
    let high : ltb_ℤ (pos max_int32) (pos n) ≡ false = ground arith in rw (low, high) refl

abbrev store : ℕ → List JobRow → Store
store next_id jobs = record { next_id = next_id; jobs = jobs }

-- The store that a call leaves and its result, its table read as a store.
abbrev pub as_stored : {A : Type 0} → Table × A → Store × A
as_stored out = (store_of out.0, out.1)

-- `shown` is the codec of a jsonb column: it reads as `codec` does and shows what `codec` writes as jsonb shows
-- it. `||` gives the value of the array with the element at its end, and a value is always shown alike.
pub record Renders (wire : Wire) (codec shown : Codec) : Type 0 where
  pub decodes : (column : Bytes) → shown.decode column ≡ codec.decode column
  pub encodes :
      (items : List Bytes) → shown.encode items ≡ Option.map wire.jsonb (codec.encode items)
  pub appends :
      (column detail text : Bytes) (items : List Bytes)
      → codec.decode column ≡ some items
      → codec.encode (items ++ detail ∷ []) ≡ some text
      → wire.append column detail ≡ wire.jsonb text

-- The errors column of the job, if it is there, holds an array, and the array with the detail can be written.
abbrev pub HoldsArray : Codec → Bytes → ℕ → Table → Type 0
HoldsArray codec detail id t =
    (job : DbJob)
    → find_job id t.rows ≡ some job
    → (items : List Bytes) × (text : Bytes) × (codec.decode job.errors ≡ some items)
      × (codec.encode (items ++ detail ∷ []) ≡ some text)
