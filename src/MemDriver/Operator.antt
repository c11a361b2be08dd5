-- ===== src/MemDriver/Operator.antt =====
-- OperatorCancel, RedriveDead and afterOperatorMiss of internal/memdriver/memdriver.go. The mutex
-- is released after a refusal; `between` is what other calls do to the store before it is taken
-- again, once before the re-read and once before the retry.
use drover.Prelude.{ℕ, Bool, true, false, none, some, if◌then◌else◌, Result, ok, err}
use drover.Driver.{
  Time, JobState, available, scheduled, retryable, dead, cancelled, JobRow, Error, not_found,
  invalid_transition,
}
use drover.MemDriver.Rows.{Store, find_row, put_row}

abbrev pub cancellable : JobState → Bool
cancellable available = true
cancellable scheduled = true
cancellable retryable = true
cancellable dead = true
cancellable _ = false

abbrev pub is_dead : JobState → Bool
is_dead dead = true
is_dead _ = false

unfoldable pub cancel_row : Time → JobRow → JobRow
cancel_row now row = record row { state = cancelled; finalized_at = some now; leased_until = none }

unfoldable pub redrive_row : Time → JobRow → JobRow
redrive_row now row = record row {
  state = available;
  attempt = 0;
  leased_until = none;
  finalized_at = none;
  scheduled_at = now;
}

-- The pass with `allowRetry` false: a refusal is final.
unfoldable pub operate :
    (JobState → Bool) → (JobRow → JobRow) → ℕ → Store → Store × Result Error JobRow
operate eligible change id s = elim (find_row id s.jobs) [
  | none ↦ (s, err (not_found id))
  | some row ↦
      if eligible row.state
      then (record s { jobs = put_row (change row) s.jobs }, ok (change row))
      else (s, err (invalid_transition id row.state))
]

-- The re-read after a refusal, with the retry in hand.
unfoldable pub after_operator_miss :
    (JobState → Bool)
    → (Store → Store × Result Error JobRow)
    → ℕ
    → Store
    → Store × Result Error JobRow
after_operator_miss eligible retry id s = elim (find_row id s.jobs) [
  | none ↦ (s, err (not_found id))
  | some row ↦ if eligible row.state then retry s else (s, err (invalid_transition id row.state))
]

-- The pass with `allowRetry` true.
unfoldable pub operate_retrying :
    (JobState → Bool)
    → (JobRow → JobRow)
    → (Store → Store)
    → (Store → Store)
    → ℕ
    → Store
    → Store × Result Error JobRow
unfolding operate after_operator_miss
operate_retrying eligible change between between' id s = elim (find_row id s.jobs) [
  | none ↦ (s, err (not_found id))
  | some row ↦
      if eligible row.state
      then (record s { jobs = put_row (change row) s.jobs }, ok (change row))
      else after_operator_miss eligible (λ t. operate eligible change id (between' t)) id
          (between s)
]

unfoldable pub operator_cancel :
    Time → (Store → Store) → (Store → Store) → ℕ → Store → Store × Result Error JobRow
unfolding operate_retrying
operator_cancel now between between' id s =
    operate_retrying cancellable (cancel_row now) between between' id s

unfoldable pub redrive_dead :
    Time → (Store → Store) → (Store → Store) → ℕ → Store → Store × Result Error JobRow
unfolding operate_retrying
redrive_dead now between between' id s =
    operate_retrying is_dead (redrive_row now) between between' id s
