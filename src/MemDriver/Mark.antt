-- ===== src/MemDriver/Mark.antt =====
-- The Mark methods, finalize, transition and appendError of internal/memdriver/memdriver.go.
use drover.Prelude.{
  ◌-◌, not, [], ◌∷◌, ◌++◌, Option, none, some, ◌==◌, if◌then◌else◌, Result, ok, err, ◌>>=◌,
}
use drover.Driver.{
  Time, Bytes, JobState, scheduled, retryable, completed, cancelled, dead, Lease, JobRow, Error,
  not_found, invalid_transition, lease_lost, decode_errors, encode_errors, Codec,
}
use drover.MemDriver.Rows.{Store, find_row, put_row}
use drover.MemDriver.Claim.{is_running}

abbrev or_fail : {A : Type 0} → Option A → Error → Result Error A
or_fail none e = err e
or_fail (some a) e = ok a

-- A nil `errDetail` is `none`.
unfoldable pub append_error : Codec → Option Bytes → JobRow → Result Error JobRow
append_error codec none row = ok row
append_error codec (some detail) row = do
  list ← or_fail (codec.decode row.errors) (decode_errors row.id)
  merged ← or_fail (codec.encode (list ++ detail ∷ [])) (encode_errors row.id)
  ok (record row { errors = merged })

-- The end of transition, on what `apply` made of the row.
unfoldable pub commit : Store → Result Error JobRow → Store × Result Error (Unit {0})
commit s (err e) = (s, err e)
commit s (ok row) = (record s { jobs = put_row (record row { leased_until = none }) s.jobs }, ok tt)

unfoldable pub transition :
    Lease → (JobRow → Result Error JobRow) → Store → Store × Result Error (Unit {0})
unfolding commit
transition lease apply s = elim (find_row lease.id s.jobs) [
  | none ↦ (s, err (not_found lease.id))
  | some row ↦
      if not (is_running row.state)
      then (s, err (invalid_transition lease.id row.state))
      else if not (row.attempt == lease.attempt)
      then (s, err (lease_lost lease.id row.attempt lease.attempt))
      else commit s (apply row)
]

-- The changes that the Mark methods hand to transition.
unfoldable pub finalized : Codec → Time → JobState → Option Bytes → JobRow → Result Error JobRow
unfolding append_error
finalized codec now state detail row = do
  r ← append_error codec detail row
  ok (record r { state = state; finalized_at = some now })

unfoldable pub retried : Codec → Time → Option Bytes → JobRow → Result Error JobRow
unfolding append_error
retried codec at detail row = do
  r ← append_error codec detail row
  ok (record r { state = retryable; scheduled_at = at })

-- `max(row.Attempt-1, 0)`: subtraction stops at 0.
unfoldable pub snoozed : Time → JobRow → Result Error JobRow
snoozed at row = ok (record row { state = scheduled; scheduled_at = at; attempt = row.attempt - 1 })

unfoldable pub finalize :
    Codec → Time → Lease → JobState → Option Bytes → Store → Store × Result Error (Unit {0})
finalize codec now lease state detail s = transition lease (finalized codec now state detail) s

unfoldable pub mark_completed : Codec → Time → Lease → Store → Store × Result Error (Unit {0})
unfolding finalize
mark_completed codec now lease s = finalize codec now lease completed none s

unfoldable pub mark_dead :
    Codec → Time → Lease → Option Bytes → Store → Store × Result Error (Unit {0})
unfolding finalize
mark_dead codec now lease detail s = finalize codec now lease dead detail s

unfoldable pub mark_cancelled :
    Codec → Time → Lease → Option Bytes → Store → Store × Result Error (Unit {0})
unfolding finalize
mark_cancelled codec now lease detail s = finalize codec now lease cancelled detail s

unfoldable pub mark_retryable :
    Codec → Lease → Time → Option Bytes → Store → Store × Result Error (Unit {0})
mark_retryable codec lease at detail s = transition lease (retried codec at detail) s

unfoldable pub mark_snoozed : Lease → Time → Store → Store × Result Error (Unit {0})
mark_snoozed lease at s = transition lease (snoozed at) s
