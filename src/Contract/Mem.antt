-- ===== src/Contract/Mem.antt =====
-- memdriver keeps the contract.
use drover.Prelude.{
  ℕ, ◌≡◌, inl, inr, refl, List, Option, none, Result, ok, err, arith, ◌≤◌, length, subst, [], ◌∙◌,
  ap,
}
use drover.Driver.{
  Time, Bytes, JobState, scheduled, retryable, completed, cancelled, dead, Lease, JobRow, Error,
  Codec,
}
use drover.MemDriver.Rows.{Store, find_row}
use drover.MemDriver.RowLaws.{find_row-put_row, find_row-id}
use drover.MemDriver.Claim.{fetch_expired}
use drover.MemDriver.Mark.{
  append_error, finalized, retried, snoozed, transition, mark_completed, mark_dead, mark_cancelled,
  mark_retryable, mark_snoozed,
}
use drover.MemDriver.Marking.{transition-holder}
use drover.MemDriver.Fetching.{fetch_expired-limit}
use drover.Contract.Defs.{Driver, Settles}

abbrev look : ℕ → Store → Option JobRow
look id s = find_row id s.jobs

-- What `apply` makes of a row keeps its id and puts it in `state`.
abbrev Makes : JobState → (JobRow → Result Error JobRow) → Type 0
Makes state apply = (r x : JobRow) → apply r ≡ ok x → (x.id ≡ r.id) × (x.state ≡ state)

transition-Settles :
    (state : JobState) (apply : JobRow → Result Error JobRow) (lease : Lease) (s : Store)
    → Makes state apply
    → Settles look lease state s (transition lease apply s)
transition-Settles state apply lease s makes = elim (transition-holder lease apply s) [
  | inr f ↦ inr f
  | inl (done, (r, x, here, on, held, a, stored)) ↦
      let x' = record x { leased_until = none } in
      let same : x.id ≡ lease.id = (makes r x a).0 ∙ find_row-id lease.id r s.jobs here in
      inl (
        done,
        record {
          before = (r, here, on, held);
          after = (
            x',
            ap (λ t. find_row lease.id t.jobs) stored
                ∙ ground (arith, find_row-put_row lease.id x' s.jobs),
            (makes r x a).1,
            refl,
          );
          others = λ id ne.
              ap (λ t. find_row id t.jobs) stored ∙ ground (arith, find_row-put_row id x' s.jobs);
        },
      )
]

finalized-Makes :
    (codec : Codec) (now : Time) (state : JobState) (detail : Option Bytes)
    → Makes state (finalized codec now state detail)
unfolding finalized append_error
finalized-Makes codec now state detail r x h = ground arith

retried-Makes :
    (codec : Codec) (at : Time) (detail : Option Bytes) → Makes retryable (retried codec at detail)
unfolding retried append_error
retried-Makes codec at detail r x h = ground arith

snoozed-Makes : (at : Time) → Makes scheduled (snoozed at)
unfolding snoozed
snoozed-Makes at r x h = ground arith

pub mem_completed :
    (codec : Codec) (now : Time) (lease : Lease) (s : Store)
    → Settles look lease completed s (mark_completed codec now lease s)
unfolding mark_completed
mem_completed codec now lease s =
    transition-Settles completed _ lease s (finalized-Makes codec now completed none)

pub mem_retryable :
    (codec : Codec) (lease : Lease) (at : Time) (detail : Option Bytes) (s : Store)
    → Settles look lease retryable s (mark_retryable codec lease at detail s)
unfolding mark_retryable
mem_retryable codec lease at detail s =
    transition-Settles retryable _ lease s (retried-Makes codec at detail)

pub mem_dead :
    (codec : Codec) (now : Time) (lease : Lease) (detail : Option Bytes) (s : Store)
    → Settles look lease dead s (mark_dead codec now lease detail s)
unfolding mark_dead
mem_dead codec now lease detail s =
    transition-Settles dead _ lease s (finalized-Makes codec now dead detail)

pub mem_cancelled :
    (codec : Codec) (now : Time) (lease : Lease) (detail : Option Bytes) (s : Store)
    → Settles look lease cancelled s (mark_cancelled codec now lease detail s)
unfolding mark_cancelled
mem_cancelled codec now lease detail s =
    transition-Settles cancelled _ lease s (finalized-Makes codec now cancelled detail)

pub mem_snoozed :
    (lease : Lease) (at : Time) (s : Store)
    → Settles look lease scheduled s (mark_snoozed lease at s)
unfolding mark_snoozed
mem_snoozed lease at s = transition-Settles scheduled _ lease s (snoozed-Makes at)

pub ok_value : {E A : Type 0} → A → Result E A → A
ok_value d (ok a) = a
ok_value d (err e) = d

abbrev pub fetched_ok : List JobRow → Result Error (List JobRow)
fetched_ok rows = ok rows

pub mem_expired :
    (now lease_for : Time) (limit : ℕ) (s : Store) (rows : List JobRow)
    → fetched_ok (fetch_expired now lease_for limit s).1 ≡ ok rows
    → length rows ≤ limit
unfolding ok_value
mem_expired now lease_for limit s rows h =
    subst (λ l. length l ≤ limit) (ap (ok_value []) h) (fetch_expired-limit now lease_for limit s)

abbrev pub mem_driver : Codec → Driver Store
mem_driver codec = record {
  look = look;
  mark_completed = mark_completed codec;
  mark_retryable = mark_retryable codec;
  mark_dead = mark_dead codec;
  mark_cancelled = mark_cancelled codec;
  mark_snoozed = mark_snoozed;
  fetch_expired = λ now lease_for limit s.
      let (s', rows) = fetch_expired now lease_for limit s in (s', ok rows);
  completed_lem = mem_completed codec;
  retryable_lem = mem_retryable codec;
  dead_lem = mem_dead codec;
  cancelled_lem = mem_cancelled codec;
  snoozed_lem = mem_snoozed;
  expired_lem = mem_expired;
}
