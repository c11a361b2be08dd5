-- ===== src/Web/Buttons.antt =====
-- The buttons of a job on the status page against memdriver's operator calls.
use drover.Prelude.{
  ℕ, Bool, true, false, some, ◌≡◌, refl, Result, ok, err, ◌∙◌, inl, inr, Bool-cases, arith,
}
use drover.Driver.{Time, JobState, JobRow, Error}
use drover.MemDriver.Rows.{Store, find_row}
use drover.MemDriver.Operator.{
  operator_cancel, redrive_dead, operate_retrying, after_operator_miss, is_dead, cancellable,
  redrive_row, cancel_row,
}
use drover.Inspector.{cancel_job, retry_job, answered}
use drover.Web.{view_for_job, is_dead_state, cancellable_state}

abbrev pub succeeds : {E A : Type 0} → Result E A → Bool
succeeds (ok a) = true
succeeds (err e) = false

abbrev pub undisturbed : Store → Store
undisturbed s = s

succeeds-answered : (answer : Result Error JobRow) → succeeds (answered answer) ≡ succeeds answer
unfolding answered
succeeds-answered (ok row) = refl
succeeds-answered (err e) = refl

operate_retrying-succeeds :
    (eligible : JobState → Bool) (change : JobRow → JobRow) (r : JobRow) (id : ℕ) (s : Store)
    → find_row id s.jobs ≡ some r
    → succeeds (operate_retrying eligible change undisturbed undisturbed id s).1 ≡ eligible r.state
unfolding operate_retrying after_operator_miss
operate_retrying-succeeds eligible change r id s found = elim (Bool-cases (eligible r.state)) [
  | inl e ↦ rw (found, succeeds, operate_retrying) (rw e refl)
  | inr e ↦
      rw (found, succeeds, operate_retrying)
        (rw e (rw (found, succeeds, after_operator_miss) (rw e refl)))
]

is_dead-same : (state : JobState) → is_dead state ≡ is_dead_state state
is_dead-same state = ground arith

cancellable-same : (state : JobState) → cancellable state ≡ cancellable_state state
cancellable-same state = ground arith

-- A job's row has the retry button exactly if RetryJob would redrive that job as it stands, and the cancel button
-- exactly if CancelJob would cancel it, where no other call comes between.
pub view_for_job-succeeds :
    (now : Time) (r : JobRow) (s : Store)
    → find_row r.id s.jobs ≡ some r
    → (succeeds (retry_job (redrive_dead now undisturbed undisturbed) r.id s).1
        ≡ (view_for_job r).can_retry)
      × (succeeds (cancel_job (operator_cancel now undisturbed undisturbed) r.id s).1
          ≡ (view_for_job r).can_cancel)
unfolding view_for_job retry_job cancel_job redrive_dead operator_cancel
view_for_job-succeeds now r s found = (
  succeeds-answered (redrive_dead now undisturbed undisturbed r.id s).1
      ∙ operate_retrying-succeeds is_dead (redrive_row now) r r.id s found
      ∙ is_dead-same r.state,
  succeeds-answered (operator_cancel now undisturbed undisturbed r.id s).1
      ∙ operate_retrying-succeeds cancellable (cancel_row now) r r.id s found
      ∙ cancellable-same r.state,
)
