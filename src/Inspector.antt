-- ===== src/Inspector.antt =====
-- inspector.go: the operator's calls, over the calls of a driver. json.Valid is the parameter `valid`. The
-- text that wraps an error is left out, and Stats, which copies the driver's answer.
pub mod Laws
mod Tests
use drover.Prelude.{
  ℕ, String, Bool, true, false, List, [], ◌∷◌, map, Option, none, some, str_eq, if◌then◌else◌,
  Result, ok, err, ℤ, pos, leb_ℤ, ltb_ℤ,
}
use drover.Driver.{
  Time, Bytes, JobState, InsertParams, JobRow, Error, not_found, invalid_transition, state_text,
}
use drover.MemDriver.Read.{ListJobsParams}
use drover.Queues.{default_queue}
use drover.Client.Enqueue.{InsertOpts, row_from_driver, rows_from_driver}

abbrev pub default_list_limit : ℕ
default_list_limit = 100

abbrev pub max_list_limit : ℕ
max_list_limit = 1000

-- `state` is the text of a job state, or empty.
pub record ListJobsOpts : Type 0 where
  pub queue : String
  pub state : String
  pub limit : ℤ

pub data InspectError : Type 0 where
  limit_exceeds : ℤ → InspectError
  err_invalid_kind : InspectError
  invalid_json : InspectError
  err_not_found : Error → InspectError
  err_invalid_transition : Error → InspectError
  driver_error : Error → InspectError

unfoldable pub map_driver_err : Error → InspectError
map_driver_err (not_found id) = err_not_found (not_found id)
map_driver_err (invalid_transition id state) = err_invalid_transition (invalid_transition id state)
map_driver_err e = driver_error e

-- The params that ListJobs passes on.
unfoldable pub list_params : Option ListJobsOpts → ListJobsParams
list_params none = record { queue = ""; state = ""; limit = pos default_list_limit }
list_params (some o) = record {
  queue = o.queue;
  state = o.state;
  limit = if ltb_ℤ (pos 0) o.limit then o.limit else pos default_list_limit;
}

-- The params that Enqueue inserts.
unfoldable pub enqueue_params : String → Bytes → Option InsertOpts → InsertParams
enqueue_params kind args none = record {
  kind = kind;
  queue = default_queue;
  args = args;
  scheduled_at = 0;
  unique_key = "";
}
enqueue_params kind args (some o) = record {
  kind = kind;
  queue = if str_eq o.queue "" then default_queue else o.queue;
  args = args;
  scheduled_at = o.scheduled_at;
  unique_key = "";
}

-- A driver's answer with its error mapped and its row made public.
unfoldable pub answered : Result Error JobRow → Result InspectError JobRow
unfolding map_driver_err row_from_driver
answered (ok row) = ok (row_from_driver row)
answered (err e) = err (map_driver_err e)

module _ {S : Type 0} where
  unfoldable pub inspect_list :
      (ListJobsParams → S → Result Error (List JobRow))
      → Option ListJobsOpts
      → S
      → Result InspectError (List JobRow)
  unfolding list_params rows_from_driver
  inspect_list list_jobs opts s =
      let p = list_params opts in
      if ltb_ℤ (pos max_list_limit) p.limit
      then err (limit_exceeds p.limit)
      else elim (list_jobs p s) [
        | err e ↦ err (driver_error e)
        | ok rows ↦ ok (rows_from_driver rows)
      ]

  unfoldable pub inspect_job : (ℕ → S → Result Error JobRow) → ℕ → S → Result InspectError JobRow
  unfolding answered
  inspect_job get_job id s = answered (get_job id s)

  unfoldable pub enqueue :
      (Bytes → Bool)
      → (InsertParams → S → S × Result Error JobRow)
      → String
      → Bytes
      → Option InsertOpts
      → S
      → S × Result InspectError JobRow
  unfolding enqueue_params row_from_driver
  enqueue valid insert kind args opts s =
      let out = insert (enqueue_params kind args opts) s in
      if str_eq kind ""
      then (s, err err_invalid_kind)
      else if valid args
      then (out.0, elim out.1 [ err e ↦ err (driver_error e) | ok row ↦ ok (row_from_driver row) ])
      else (s, err invalid_json)

  unfoldable pub cancel_job :
      (ℕ → S → S × Result Error JobRow) → ℕ → S → S × Result InspectError JobRow
  unfolding answered
  cancel_job operator_cancel id s = let out = operator_cancel id s in (out.0, answered out.1)

  unfoldable pub retry_job :
      (ℕ → S → S × Result Error JobRow) → ℕ → S → S × Result InspectError JobRow
  unfolding answered
  retry_job redrive_dead id s = let out = redrive_dead id s in (out.0, answered out.1)
