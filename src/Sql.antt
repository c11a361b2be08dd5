-- ===== src/Sql.antt =====
-- internal/dbsqlc: the table drover_jobs and the statements of queries.sql.go, read as SQL. A statement
-- takes the transaction's now(). `id` is the primary key, so an UPDATE of one id touches at most one row.
-- Running a statement over the wire is the driver's business (PgDriver).
pub mod Statements
pub mod Inserts
pub mod Reads
pub mod Counts
use drover.Prelude.{ℕ, String, List, [], ◌∷◌, Option, none, some, ◌==◌, if◌then◌else◌, map}
use drover.Driver.{Time, Bytes, JobState, JobRow}

-- A null unique_key is `none`.
pub record DbJob : Type 0 where
  pub id : ℕ
  pub kind : String
  pub queue : String
  pub args : Bytes
  pub state : JobState
  pub attempt : ℕ
  pub max_attempts : ℕ
  pub errors : Bytes
  pub scheduled_at : Time
  pub leased_until : Option Time
  pub created_at : Time
  pub finalized_at : Option Time
  pub unique_key : Option String

-- The last id that the identity column gave out, and the rows.
pub record Table : Type 0 where
  pub next_id : ℕ
  pub rows : List DbJob

unfoldable pub find_job : ℕ → List DbJob → Option DbJob
find_job id [] = none
find_job id (job ∷ jobs) = if job.id == id then some job else find_job id jobs

unfoldable pub put_job : DbJob → List DbJob → List DbJob
put_job r [] = r ∷ []
put_job r (job ∷ jobs) = if job.id == r.id then r ∷ jobs else job ∷ put_job r jobs

unfoldable pub put_jobs : List DbJob → List DbJob → List DbJob
put_jobs [] jobs = jobs
put_jobs (r ∷ rs) jobs = put_jobs rs (put_job r jobs)
