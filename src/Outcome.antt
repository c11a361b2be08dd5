-- ===== src/Outcome.antt =====
-- errors.go and the panic error of middleware.go: what a handler's error asks for. An error is the
-- tree that errors.Is and errors.As walk; `wrap` is %w with some context, `join` is %w: %w.
pub mod Laws
use drover.Prelude.{
  ℕ, String, Bool, true, false, ◌||◌, List, [], Option, none, some, if◌then◌else◌, ℤ, pos, pos_part,
  ltb_ℤ,
}
use drover.Driver.{Bytes}

pub data JobError : Type 0 where
  err_cancelled : JobError
  err_snoozed : JobError
  snooze_error : ℕ → JobError
  panic_error : String → Bytes → JobError
  message : String → JobError
  wrap : String → JobError → JobError
  join : JobError → JobError → JobError

-- Cancel; a nil reason is `none`.
pub cancel : Option JobError → JobError
cancel none = err_cancelled
cancel (some reason) = join err_cancelled reason

-- Snooze, in nanoseconds.
pub snooze : ℤ → JobError
snooze d = if ltb_ℤ d (pos 0) then snooze_error 0 else snooze_error (pos_part d)

-- errors.Is(err, ErrCancelled).
unfoldable pub is_cancelled : JobError → Bool
is_cancelled err_cancelled = true
is_cancelled (wrap context e) = is_cancelled e
is_cancelled (join a b) = is_cancelled a || is_cancelled b
is_cancelled _ = false

-- errors.Is(err, ErrSnoozed): snoozeError unwraps to the sentinel.
unfoldable pub is_snoozed : JobError → Bool
is_snoozed err_snoozed = true
is_snoozed (snooze_error d) = true
is_snoozed (wrap context e) = is_snoozed e
is_snoozed (join a b) = is_snoozed a || is_snoozed b
is_snoozed _ = false

-- errors.As to snoozeError: the first one in the tree, and its duration.
unfoldable pub as_snooze : JobError → Option ℕ
as_snooze (snooze_error d) = some d
as_snooze (wrap context e) = as_snooze e
as_snooze (join a b) = elim (as_snooze a) [ some d ↦ some d | none ↦ as_snooze b ]
as_snooze _ = none

-- stackOf: the stack of the first panic in the tree, or nothing.
unfoldable pub as_panic : JobError → Option Bytes
as_panic (panic_error value stack) = some stack
as_panic (wrap context e) = as_panic e
as_panic (join a b) = elim (as_panic a) [ some stack ↦ some stack | none ↦ as_panic b ]
as_panic _ = none

unfoldable pub stack_of : JobError → Bytes
unfolding as_panic
stack_of e = elim (as_panic e) [ some stack ↦ stack | none ↦ [] ]

pub data JobOutcome : Type 0 where
  outcome_failed outcome_cancelled outcome_snoozed : JobOutcome

unfoldable pub classify_outcome : JobError → JobOutcome × ℕ
unfolding is_cancelled is_snoozed as_snooze
classify_outcome e = if is_cancelled e then (outcome_cancelled, 0) else elim (as_snooze e) [
  | some d ↦ (outcome_snoozed, d)
  | none ↦ if is_snoozed e then (outcome_snoozed, 0) else (outcome_failed, 0)
]
