-- ===== src/MemDriver/Moves.antt =====
-- A rule for every call of memdriver.go: what each accepted insert and each change of one stored row
-- keeps, every call keeps.
use drover.Prelude.{
  ℕ, String, ◌+◌, ◌≡◌, refl, Bool, not, ◌&&◌, ◌||◌, true, false, List, [], ◌∷◌, none, some, arith,
  ◌==◌, All, Bool-cases, Option-cases, inl, inr, Result, ok, ap, ◌∙◌, Result-cases,
}
use drover.Driver.{
  Time, JobState, completed, dead, cancelled, Lease, InsertParams, JobRow, Error, Codec,
}
use drover.MemDriver.Rows.{Store, find_row, put_row}
use drover.MemDriver.RowLaws.{find_row-id}
use drover.MemDriver.Insert.{job_from_params, unique_conflict, insert, insert_many}
use drover.MemDriver.Claim.{
  waiting, is_running, is_due, is_expired, by_scheduled_at, by_leased_until, select_rows, claim,
  reclaim, take_rows, fetch_available, fetch_expired, extend_one, extend_all, extend_leases,
}
use drover.MemDriver.Mark.{
  append_error, commit, transition, finalized, retried, snoozed, mark_completed, mark_dead,
  mark_cancelled, mark_retryable, mark_snoozed,
}
use drover.MemDriver.Operator.{cancellable, is_dead, cancel_row, redrive_row, operate}
use drover.MemDriver.History.{
  Call, inserts, inserts_many, fetches, rescues, extends, completes, kills, cancels, retries,
  snoozes, operator_cancels, redrives, step, run, Outcome, finalizes, dies, gives_up, retries_at,
  snoozes_to, Move, claimed, renewed, ended, stopped, redriven,
}
use drover.MemDriver.Ids.{
  Ids, All-select_rows, select_rows-OtherId, take_rows-keeps, put_row-Ids, put_row_new-Ids,
}
use drover.MemDriver.Batch.{insert_each, insert_many-insert_each}

pub Outcome-id : (codec : Codec) (r x : JobRow) → Outcome codec r x → x.id ≡ r.id
unfolding finalized retried snoozed append_error
Outcome-id codec r x (finalizes now detail e) = ground arith
Outcome-id codec r x (dies now detail e) = ground arith
Outcome-id codec r x (gives_up now detail e) = ground arith
Outcome-id codec r x (retries_at at detail e) = ground arith
Outcome-id codec r x (snoozes_to at e) = ground arith

is_due-waiting :
    (now : Time) (queue : String) (r : JobRow) → is_due now queue r ≡ true → waiting r.state ≡ true
is_due-waiting now queue r h = ground arith

is_expired-is_running :
    (now : Time) (r : JobRow) → is_expired now r ≡ true → is_running r.state ≡ true
is_expired-is_running now r h = ground arith

reclaim-id : (until : Time) (r : JobRow) → (reclaim until r).id ≡ r.id
unfolding reclaim
reclaim-id until r = refl

skipped :
    (r : JobRow) (held : Lease)
    → (is_running r.state && r.attempt == held.attempt) ≡ false
    → (not (is_running r.state) || not (r.attempt == held.attempt)) ≡ true
skipped r held h = ground arith

kept :
    (r : JobRow) (held : Lease)
    → (is_running r.state && r.attempt == held.attempt) ≡ true
    → (not (is_running r.state) || not (r.attempt == held.attempt)) ≡ false
kept r held h = ground arith

module _ {κ} (codec : Codec) (Q : Store → Type κ) where
  -- Writing a row that `c` may make of a stored one keeps `Q`.
  abbrev pub KeepsMoves : Call → Type κ
  KeepsMoves c =
      (s : Store) (r r' : JobRow)
      → Ids s
      → Q s
      → find_row r'.id s.jobs ≡ some r
      → Move codec c r r'
      → Q (record s { jobs = put_row r' s.jobs })

  -- Storing a new job, where its slot is free, keeps `Q`.
  abbrev pub KeepsInserts : Type κ
  KeepsInserts =
      (s : Store) (now : Time) (params : InsertParams)
      → Ids s
      → Q s
      → unique_conflict s params [] ≡ false
      → Q (record s {
        next_id = s.next_id + 1;
        jobs = put_row (job_from_params (s.next_id + 1) params now) s.jobs;
      })

  module _ (inserted : KeepsInserts) where
    insert-keeps :
        (now : Time) (params : InsertParams) (s : Store)
        → Ids s × Q s
        → Ids (insert now params s).0 × Q (insert now params s).0
    unfolding insert job_from_params
    insert-keeps now params s (v, q) = elim (Bool-cases (unique_conflict s params [])) [
      | inl e ↦ rw e (v, q)
      | inr e ↦ rw e (put_row_new-Ids s _ refl v, inserted s now params v q e)
    ]

    insert_each-keeps :
        (now : Time) (batch : List InsertParams) (s : Store)
        → Ids s × Q s
        → Ids (insert_each now batch s).0 × Q (insert_each now batch s).0
    unfolding insert_each
    insert_each-keeps now [] s h = h
    insert_each-keeps now (params ∷ rest) s h = elim (Result-cases (insert now params s).1) [
      | inl (row, e) ↦
          rw (e, insert_each)
            (insert_each-keeps now rest (insert now params s).0 (insert-keeps now params s h))
      | inr (f, e) ↦ rw (e, insert_each) h
    ]

    insert_many-keeps :
        (now : Time) (batch : List InsertParams) (s : Store)
        → Ids s × Q s
        → Ids (insert_many now batch s).0 × Q (insert_many now batch s).0
    insert_many-keeps now batch s h =
        rw (insert_many-insert_each now batch s h.0.bounded)
          (elim (Result-cases (insert_each now batch s).1) [
            | inl (rows, e) ↦ rw e (insert_each-keeps now batch s h)
            | inr (f, e) ↦ rw e h
          ])

  module _ (c : Call) (moved : KeepsMoves c) where
    -- The rule at one row.
    put-keeps :
        (s : Store) (id : ℕ) (r r' : JobRow)
        → Ids s × Q s
        → find_row id s.jobs ≡ some r
        → r'.id ≡ r.id
        → Move codec c r r'
        → Ids (record s { jobs = put_row r' s.jobs }) × Q (record s { jobs = put_row r' s.jobs })
    put-keeps s id r r' (v, q) e same m =
        let e' : find_row r'.id s.jobs ≡ some r =
          ap (λ i. find_row i s.jobs) (same ∙ find_row-id id r s.jobs e) ∙ e in
        (put_row-Ids s r r' e' v, moved s r r' v q e' m)

    taken-keeps :
        (change : JobRow → JobRow) (order : JobRow → Time) (keep : JobRow → Bool) (limit : ℕ)
        (s : Store)
        → ((r : JobRow) → (change r).id ≡ r.id)
        → ((r : JobRow) → keep r ≡ true → Move codec c r (change r))
        → Ids s × Q s
        → let s' = record s {
          jobs = (take_rows change limit 0 (select_rows order keep s.jobs) s.jobs).1;
        } in
          Ids s' × Q s'
    taken-keeps change order keep limit s same move (v, q) =
        take_rows-keeps {P = λ r. keep r ≡ true}
          (λ jobs. Ids (record s { jobs = jobs }) × Q (record s { jobs = jobs })) change same
          (λ jobs r h e k.
            put-keeps (record s { jobs = jobs }) r.id r (change r) h e (same r) (move r k))
          limit 0 _ s.jobs (All-select_rows order keep s.jobs v.distinct)
          (select_rows-OtherId order keep s.jobs v.distinct) (v, q)

    transition-keeps :
        (lease : Lease) (apply : JobRow → Result Error JobRow) (s : Store)
        → ((r x : JobRow) → apply r ≡ ok x → Outcome codec r x)
        → Ids s × Q s
        → Ids (transition lease apply s).0 × Q (transition lease apply s).0
    unfolding transition
    transition-keeps lease apply s out h = elim (Option-cases (find_row lease.id s.jobs)) [
      | inl e ↦ rw (e, transition) h
      | inr (r, e) ↦ elim (Bool-cases (is_running r.state)) [
        | inr off ↦ rw (e, transition) (rw off h)
        | inl on ↦ elim (Bool-cases (r.attempt == lease.attempt)) [
          | inr lost ↦ rw (e, transition) (rw (on, lost) h)
          | inl held ↦ elim (Result-cases (apply r)) [
            | inr (f, a) ↦ rw (e, transition) (rw (on, held, a, commit) h)
            | inl (x, a) ↦
                rw (e, transition)
                  (rw (on, held, a, commit)
                    (put-keeps s lease.id r (record x { leased_until = none }) h e
                      (Outcome-id codec r x (out r x a)) (ended x on (out r x a) refl)))
          ]
        ]
      ]
    ]

    operate-keeps :
        (eligible : JobState → Bool) (change : JobRow → JobRow) (id : ℕ) (s : Store)
        → ((r : JobRow) → (change r).id ≡ r.id)
        → ((r : JobRow) → eligible r.state ≡ true → Move codec c r (change r))
        → Ids s × Q s
        → Ids (operate eligible change id s).0 × Q (operate eligible change id s).0
    unfolding operate
    operate-keeps eligible change id s same move h = elim (Option-cases (find_row id s.jobs)) [
      | inl e ↦ rw (e, operate) h
      | inr (r, e) ↦ elim (Bool-cases (eligible r.state)) [
        | inr off ↦ rw (e, operate) (rw off h)
        | inl on ↦ rw (e, operate) (rw on (put-keeps s id r (change r) h e (same r) (move r on)))
      ]
    ]

    extend_all-keeps :
        (until : Time) (leases : List Lease) (s : Store)
        → Ids s × Q s
        → let s' = record s { jobs = extend_all until leases s.jobs } in Ids s' × Q s'
    unfolding extend_all extend_one
    extend_all-keeps until [] s h = h
    extend_all-keeps until (held ∷ rest) s h =
        extend_all-keeps until rest (record s { jobs = extend_one until held s.jobs })
          (elim (Option-cases (find_row held.id s.jobs)) [
            | inl e ↦ rw (e, extend_one) h
            | inr (r, e) ↦ elim (Bool-cases (is_running r.state && r.attempt == held.attempt)) [
              | inr off ↦ rw (e, extend_one) (rw (skipped r held off) h)
              | inl on ↦
                  rw (e, extend_one)
                    (rw (kept r held on) (
                      put-keeps s held.id r (reclaim until r) h e (reclaim-id until r)
                        (renewed until (ground arith) refl)))
            ]
          ])

  -- Whatever the inserts and the moves of call `c` keep, the call keeps.
  pub step-keeps :
      (now : Time) (c : Call)
      → KeepsInserts
      → KeepsMoves c
      → (s : Store) → Ids s × Q s
      → Ids (step codec now c s) × Q (step codec now c s)
  unfolding step
  step-keeps now (inserts params) i m s h = insert-keeps i now params s h
  step-keeps now (inserts_many batch) i m s h = insert_many-keeps i now batch s h
  step-keeps now (fetches queue lease_for limit) i m s h =
      unfold fetch_available in
      taken-keeps (fetches queue lease_for limit) m (claim (now + lease_for)) by_scheduled_at
        (is_due now queue) limit s (λ r. unfold claim in refl)
        (λ r e. claimed (now + lease_for) (is_due-waiting now queue r e) refl) h
  step-keeps now (rescues lease_for limit) i m s h =
      unfold fetch_expired in
      taken-keeps (rescues lease_for limit) m (reclaim (now + lease_for)) by_leased_until
        (is_expired now) limit s (reclaim-id (now + lease_for))
        (λ r e. renewed (now + lease_for) (is_expired-is_running now r e) refl) h
  step-keeps now (extends leases lease_for) i m s h =
      unfold extend_leases in
      extend_all-keeps (extends leases lease_for) m (now + lease_for) leases s h
  step-keeps now (completes lease) i m s h =
      unfold mark_completed in
      transition-keeps (completes lease) m lease (finalized codec now completed none) s
        (λ r x e. finalizes now none e) h
  step-keeps now (kills lease detail) i m s h =
      unfold mark_dead in
      transition-keeps (kills lease detail) m lease (finalized codec now dead detail) s
        (λ r x e. dies now detail e) h
  step-keeps now (cancels lease detail) i m s h =
      unfold mark_cancelled in
      transition-keeps (cancels lease detail) m lease (finalized codec now cancelled detail) s
        (λ r x e. gives_up now detail e) h
  step-keeps now (retries lease at detail) i m s h =
      unfold mark_retryable in
      transition-keeps (retries lease at detail) m lease (retried codec at detail) s
        (λ r x e. retries_at at detail e) h
  step-keeps now (snoozes lease at) i m s h =
      unfold mark_snoozed in
      transition-keeps (snoozes lease at) m lease (snoozed at) s (λ r x e. snoozes_to at e) h
  step-keeps now (operator_cancels id) i m s h =
      operate-keeps (operator_cancels id) m cancellable (cancel_row now) id s
        (λ r. unfold cancel_row in refl) (λ r e. stopped now e refl) h
  step-keeps now (redrives id) i m s h =
      operate-keeps (redrives id) m is_dead (redrive_row now) id s (λ r. unfold redrive_row in refl)
        (λ r e. redriven now id refl e refl) h

  -- So does a history whose calls all satisfy `Ok`.
  pub run-keeps {ι} :
      (Ok : Call → Type ι)
      → KeepsInserts
      → ((c : Call) → Ok c → KeepsMoves c)
      → (cs : List (Time × Call)) (s : Store) → All (λ c. Ok c.1) cs
      → Ids s × Q s
      → Ids (run codec cs s) × Q (run codec cs s)
  unfolding run
  run-keeps Ok i m [] s o h = h
  run-keeps Ok i m ((now, c) ∷ cs) s o h =
      run-keeps Ok i m cs (step codec now c s) o.1 (step-keeps now c i (m c o.0) s h)
