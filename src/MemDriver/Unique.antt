-- ===== src/MemDriver/Unique.antt =====
-- The unique slots of memdriver.go: one active job for a queue, kind and non-empty key.
use drover.Prelude.{
  ℕ, ◌+◌, String, ◌≡◌, Bool, true, false, not, ◌&&◌, List, [], ◌∷◌, some, arith, All, Pairs,
  All-map, str_eq, Bool-cases, inl, inr, ◌≢◌, subst,
}
use drover.Driver.{Time, InsertParams, JobRow, Codec}
use drover.MemDriver.Rows.{Store, find_row}
use drover.MemDriver.RowLaws.{find_row-put_row, Pairs-put_row, Pairs-put_row_new}
use drover.MemDriver.Insert.{
  job_from_params, unique_active, same_slot, active_conflict, unique_conflict,
}
use drover.MemDriver.Claim.{is_running, claim, reclaim}
use drover.MemDriver.Mark.{append_error, finalized, retried, snoozed}
use drover.MemDriver.Operator.{is_dead, cancel_row, redrive_row, operate}
use drover.MemDriver.History.{
  Call, redrives, step, run, Outcome, finalizes, dies, gives_up, retries_at, snoozes_to, Move,
  claimed, renewed, ended, stopped, redriven,
}
use drover.MemDriver.Ids.{Ids}
use drover.MemDriver.Moves.{KeepsMoves, KeepsInserts, run-keeps}

-- Row `a` occupies the slot that row `b` occupies too.
abbrev pub clash : JobRow → JobRow → Bool
clash a b =
    not (str_eq b.unique_key "")
    && same_slot b.queue b.kind b.unique_key a
    && unique_active a.state
    && unique_active b.state

abbrev pub Apart : JobRow → JobRow → Type 0
Apart a b = clash a b ≡ false

-- No two active jobs share a slot.
abbrev pub SlotsFree : Store → Type 0
SlotsFree s = Pairs Apart s.jobs

abbrev pub NoRedrive : Call → Type 0
NoRedrive (redrives id) = ⊥
NoRedrive _ = Unit

-- `r'` stands in the slot of `r`, and is active only if `r` is.
record Weaker (r r' : JobRow) : Type 0 where
  queue : r'.queue ≡ r.queue
  kind : r'.kind ≡ r.kind
  key : r'.unique_key ≡ r.unique_key
  active : unique_active r'.state ≡ true → unique_active r.state ≡ true

Outcome-Weaker :
    (codec : Codec) (r x : JobRow) → is_running r.state ≡ true → Outcome codec r x → Weaker r x
unfolding finalized retried snoozed append_error
Outcome-Weaker codec r x on (finalizes now detail e) = ground arith
Outcome-Weaker codec r x on (dies now detail e) = ground arith
Outcome-Weaker codec r x on (gives_up now detail e) = ground arith
Outcome-Weaker codec r x on (retries_at at detail e) = ground arith
Outcome-Weaker codec r x on (snoozes_to at e) = ground arith

Move-Weaker :
    (codec : Codec) (c : Call) (r r' : JobRow) → NoRedrive c → Move codec c r r' → Weaker r r'
unfolding claim reclaim cancel_row
Move-Weaker codec c r r' calm (claimed until w e) = ground arith
Move-Weaker codec c r r' calm (renewed until on e) = ground arith
Move-Weaker codec c r r' calm (ended x on out e) = ground (arith, Outcome-Weaker codec r x on out)
Move-Weaker codec c r r' calm (stopped now off e) = ground arith
Move-Weaker codec c r r' calm (redriven now id call d e) = absurd (subst NoRedrive call calm)

Apart-Weaker_right : (r r' x : JobRow) → Weaker r r' → Apart x r → Apart x r'
Apart-Weaker_right r r' x w h = rw (w.queue, w.kind, w.key) (ground arith)

Apart-Weaker_left : (r r' x : JobRow) → Weaker r r' → Apart r x → Apart r' x
Apart-Weaker_left r r' x w h = rw (w.queue, w.kind, w.key) (ground arith)

active_conflict-All :
    (queue kind key : String) (rows : List JobRow)
    → active_conflict queue kind key rows ≡ false
    → All (λ x. (same_slot queue kind key x && unique_active x.state) ≡ false) rows
unfolding active_conflict
active_conflict-All queue kind key [] h = tt
active_conflict-All queue kind key (row ∷ rows) h =
    (ground arith, active_conflict-All queue kind key rows (ground arith))

free-Apart :
    (s : Store) (params : InsertParams) (id : ℕ) (now : Time)
    → unique_conflict s params [] ≡ false
    → All (λ x. Apart x (job_from_params id params now)) s.jobs
unfolding unique_conflict job_from_params
free-Apart s params id now free = elim (Bool-cases (str_eq params.unique_key "")) [
  | inl none ↦ everywhere s.jobs none
  | inr key ↦
      All-map _ (λ x h. ground arith) s.jobs
        (active_conflict-All params.queue params.kind params.unique_key s.jobs (ground arith))
]
  where
    everywhere :
        (rows : List JobRow)
        → str_eq params.unique_key "" ≡ true
        → All (λ x. Apart x (job_from_params id params now)) rows
    everywhere [] e = tt
    everywhere (x ∷ rows) e = (ground arith, everywhere rows e)

inserts-SlotsFree : (codec : Codec) → KeepsInserts codec SlotsFree
unfolding job_from_params
inserts-SlotsFree codec s now params v q free =
    Pairs-put_row_new Apart (job_from_params (s.next_id + 1) params now) s.jobs
      (All-map _ (λ x h. omega arith) s.jobs v.bounded)
      (free-Apart s params (s.next_id + 1) now free) q

moves-SlotsFree : (codec : Codec) (c : Call) → NoRedrive c → KeepsMoves codec SlotsFree c
moves-SlotsFree codec c calm s r r' v q e m =
    let w = Move-Weaker codec c r r' calm m in
    Pairs-put_row Apart r r' s.jobs (λ x. Apart-Weaker_right r r' x w)
      (λ x. Apart-Weaker_left r r' x w) e q

-- Without RedriveDead, a history of calls keeps the unique slots: if no two active jobs share a
-- queue, kind and non-empty key before it, none do after it.
pub run-SlotsFree :
    (codec : Codec) (cs : List (Time × Call)) (s : Store)
    → All (λ c. NoRedrive c.1) cs
    → Ids s
    → SlotsFree s
    → SlotsFree (run codec cs s)
run-SlotsFree codec cs s calm v q =
    (run-keeps codec SlotsFree NoRedrive (inserts-SlotsFree codec) (moves-SlotsFree codec) cs s calm
      (v, q)).1

-- RedriveDead does not look at the slots: a dead job whose slot an active job `o` has taken since
-- becomes active too, and both then occupy it.
pub redrive-clash :
    (codec : Codec) (now : Time) (s : Store) (r o : JobRow)
    → find_row r.id s.jobs ≡ some r
    → is_dead r.state ≡ true
    → find_row o.id s.jobs ≡ some o
    → o.id ≢ r.id
    → str_eq r.unique_key "" ≡ false
    → same_slot r.queue r.kind r.unique_key o ≡ true
    → unique_active o.state ≡ true
    → let jobs = (step codec now (redrives r.id) s).jobs in
      (r' : JobRow) × (find_row r.id jobs ≡ some r')
      × (find_row o.id jobs ≡ some o)
      × (clash o r' ≡ true)
unfolding step operate redrive_row
redrive-clash codec now s r o here gone there other key slot active = (
  redrive_row now r,
  rw (here, step, operate)
      (rw gone (ground (arith, find_row-put_row r.id (redrive_row now r) s.jobs))),
  rw (here, step, operate)
      (rw gone (ground (arith, find_row-put_row o.id (redrive_row now r) s.jobs))),
  ground arith,
)
