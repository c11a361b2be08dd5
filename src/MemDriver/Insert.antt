-- ===== src/MemDriver/Insert.antt =====
-- Insert, InsertTx, InsertMany, InsertManyTx and the uniqueness check of
-- internal/memdriver/memdriver.go.
use drover.Prelude.{
  ℕ, ◌+◌, String, Bool, true, false, ◌&&◌, ◌||◌, List, [], ◌∷◌, ◌++◌, none, ltb, ◌==◌, str_eq,
  if◌then◌else◌, length, Result, ok, err,
}
use drover.Driver.{
  Time, JobState, available, scheduled, running, retryable, InsertParams, JobRow, Error,
  tx_unsupported, duplicate_job, empty_array,
}
use drover.MemDriver.Rows.{Store, put_row}

unfoldable pub job_from_params : ℕ → InsertParams → Time → JobRow
job_from_params id params now = record {
  id = id;
  kind = params.kind;
  queue = params.queue;
  args = params.args;
  state = if ltb now due then scheduled else available;
  attempt = 0;
  max_attempts = 25;
  errors = empty_array;
  scheduled_at = due;
  leased_until = none;
  created_at = now;
  finalized_at = none;
  unique_key = params.unique_key;
}
  where
    due : Time
    due = if params.scheduled_at == 0 then now else params.scheduled_at

abbrev pub unique_active : JobState → Bool
unique_active available = true
unique_active scheduled = true
unique_active retryable = true
unique_active running = true
unique_active _ = false

abbrev pub same_slot : String → String → String → JobRow → Bool
same_slot queue kind key row =
    str_eq row.unique_key key && str_eq row.queue queue && str_eq row.kind kind

-- The loop over `d.jobs`.
unfoldable pub active_conflict : String → String → String → List JobRow → Bool
active_conflict queue kind key [] = false
active_conflict queue kind key (row ∷ rows) =
    same_slot queue kind key row && unique_active row.state || active_conflict queue kind key rows

-- The loop over `extra`.
unfoldable pub extra_conflict : String → String → String → List JobRow → Bool
extra_conflict queue kind key [] = false
extra_conflict queue kind key (row ∷ rows) =
    same_slot queue kind key row || extra_conflict queue kind key rows

unfoldable pub unique_conflict : Store → InsertParams → List JobRow → Bool
unique_conflict s params extra =
    if str_eq params.unique_key ""
    then false
    else (active_conflict params.queue params.kind params.unique_key s.jobs
        || extra_conflict params.queue params.kind params.unique_key extra)

unfoldable pub insert : Time → InsertParams → Store → Store × Result Error JobRow
insert now params s =
    if unique_conflict s params []
    then (s, err duplicate_job)
    else (record s { next_id = s.next_id + 1; jobs = put_row row s.jobs }, ok row)
  where
    row : JobRow
    row = job_from_params (s.next_id + 1) params now

pub insert_tx : InsertParams → Store → Store × Result Error JobRow
insert_tx params s = (s, err tx_unsupported)

-- The first loop of InsertMany: `i` is the index, `pending` what the loop has built.
unfoldable pub build_pending :
    Time → Store → ℕ → List InsertParams → List JobRow → Result Error (List JobRow)
build_pending now s i [] pending = ok pending
build_pending now s i (params ∷ rest) pending =
    if unique_conflict s params pending
    then err duplicate_job
    else build_pending now s (i + 1) rest
        (pending ++ job_from_params (s.next_id + i + 1) params now ∷ [])

unfoldable pub put_rows : List JobRow → List JobRow → List JobRow
put_rows [] jobs = jobs
put_rows (row ∷ rows) jobs = put_rows rows (put_row row jobs)

-- What follows the first loop.
unfoldable pub store_pending :
    ℕ → Store → Result Error (List JobRow) → Store × Result Error (List JobRow)
store_pending n s (err e) = (s, err e)
store_pending n s (ok pending) =
    (record s { next_id = s.next_id + n; jobs = put_rows pending s.jobs }, ok pending)

unfoldable pub insert_many : Time → List InsertParams → Store → Store × Result Error (List JobRow)
unfolding store_pending
insert_many now batch s =
    if length batch == 0
    then (s, ok [])
    else store_pending (length batch) s (build_pending now s 0 batch [])

pub insert_many_tx : List InsertParams → Store → Store × Result Error (List JobRow)
insert_many_tx batch s = (s, err tx_unsupported)
