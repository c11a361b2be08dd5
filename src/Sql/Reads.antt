-- ===== src/Sql/Reads.antt =====
-- The statements that only read.
use drover.Prelude.{
  ℕ, String, Bool, false, not, [], ◌∷◌, if◌then◌else◌, Result, ok, err, ◌&&◌, ◌||◌, List, Option,
  leb, str_eq, take, keep_if, sort_by,
}
use drover.Driver.{
  JobState, available, scheduled, running, retryable, completed, cancelled, dead, state_text,
}
use drover.Sql.{DbJob, Table, find_job}
use drover.Sql.Statements.{PgError, failure}

unfoldable pub get_job : ℕ → Table → Option DbJob
get_job id t = find_job id t.rows

abbrev pub listed : String → String → DbJob → Bool
listed queue state job =
    (str_eq queue "" || str_eq job.queue queue)
    && (str_eq state "" || str_eq (state_text job.state) state)

abbrev pub newest : DbJob → DbJob → Bool
newest a b = leb b.id a.id

abbrev pub job_states : List JobState
job_states = available ∷ scheduled ∷ running ∷ retryable ∷ completed ∷ cancelled ∷ dead ∷ []

abbrev pub names_state : String → List JobState → Bool
names_state text [] = false
names_state text (s ∷ ss) = str_eq (state_text s) text || names_state text ss

-- The cast of a text that names no state fails.
unfoldable pub list_jobs : String → String → ℕ → Table → Result PgError (List DbJob)
list_jobs queue state max_jobs t =
    if not (str_eq state "") && not (names_state state job_states)
    then err (failure 0)
    else ok (take max_jobs (sort_by newest (keep_if (listed queue state) t.rows)))
