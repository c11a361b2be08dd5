-- ===== src/Heartbeat/Renewal.antt =====
-- Which leases a beat of heartbeat.go renews.
use drover.Prelude.{
  ℕ, suc, ◌+◌, Bool, true, false, not, ◌&&◌, ◌||◌, List, [], ◌∷◌, Option, none, some, ◌==◌,
  if◌then◌else◌, length, sort_by, insert_by, ◌≡◌, refl, ap, sym, ◌∙◌, subst, arith, Bool-cases,
  Option-cases, inl, inr,
}
use drover.Driver.{Time, Lease, JobRow}
use drover.MemDriver.Rows.{Store, find_row}
use drover.MemDriver.RowLaws.{find_row-put_row, find_row-id}
use drover.MemDriver.Claim.{is_running, is_expired, reclaim, extend_one, extend_all}
use drover.MemDriver.Claim
use drover.Inflight.{Inflight, snapshot, by_id}
use drover.Heartbeat.{beat}

-- The attempt of the row is among the leases.
unfoldable pub tracked : JobRow → List Lease → Bool
tracked row [] = false
tracked row (l ∷ ls) = (l.id == row.id && l.attempt == row.attempt) || tracked row ls

abbrev pub renew : Time → List Lease → JobRow → JobRow
renew until leases row =
    if tracked row leases && is_running row.state then reclaim until row else row

abbrev pub renewed : Time → List Lease → Option JobRow → Option JobRow
renewed until leases none = none
renewed until leases (some row) = some (renew until leases row)

untracked :
    (id : ℕ) (until : Time) (l : Lease) (jobs : List JobRow)
    → (l.id == id) ≡ false
    → renewed until (l ∷ []) (find_row id jobs) ≡ find_row id jobs
unfolding tracked
untracked id until l jobs other = elim (Option-cases (find_row id jobs)) [
  | inl f ↦ rw f refl
  | inr (row, f) ↦
      let away : (l.id == row.id) ≡ false = ground (arith, find_row-id id row jobs f) in
      rw f (rw away refl)
]

extend_one-other :
    (id : ℕ) (until : Time) (l : Lease) (jobs : List JobRow)
    → (l.id == id) ≡ false
    → find_row id (extend_one until l jobs) ≡ find_row id jobs
unfolding extend_one reclaim
extend_one-other id until l jobs other = elim (Option-cases (find_row l.id jobs)) [
  | inl e ↦ rw (extend_one, e) refl
  | inr (held, e) ↦
      let away : (held.id == id) ≡ false = ground (arith, find_row-id l.id held jobs e) in
      rw (extend_one, e)
        (elim (Bool-cases (not (is_running held.state) || not (held.attempt == l.attempt))) [
          | inl skip ↦ rw skip refl
          | inr go ↦
              rw go (
                find_row-put_row id (record held { leased_until = some until }) jobs ∙ rw away refl)
        ])
]

extend_one-own :
    (until : Time) (l : Lease) (jobs : List JobRow)
    → find_row l.id (extend_one until l jobs) ≡ renewed until (l ∷ []) (find_row l.id jobs)
unfolding extend_one reclaim tracked
extend_one-own until l jobs = elim (Option-cases (find_row l.id jobs)) [
  | inl e ↦ rw (extend_one, e) (rw e refl)
  | inr (held, e) ↦
      let own : (l.id == held.id) ≡ true = ground (arith, find_row-id l.id held jobs e) in
      let own' : (held.id == l.id) ≡ true = ground (arith, find_row-id l.id held jobs e) in
      elim (Bool-cases (held.attempt == l.attempt)) [
        | inr lost ↦
            let lost' : (l.attempt == held.attempt) ≡ false = ground arith in
            rw (extend_one, e)
              (rw (lost, lost', own)
                (elim (Bool-cases (is_running held.state)) [
                  | inl on ↦ rw on e
                  | inr off ↦ rw off e
                ]))
        | inl same ↦
            let same' : (l.attempt == held.attempt) ≡ true = ground arith in
            rw (extend_one, e)
              (rw (same, same', own)
                (elim (Bool-cases (is_running held.state)) [
                  | inr off ↦ rw off e
                  | inl on ↦ rw on (
                      find_row-put_row l.id (record held { leased_until = some until }) jobs
                      ∙ rw own' refl)
                ]))
      ]
]

extend_one-renewed :
    (id : ℕ) (until : Time) (l : Lease) (jobs : List JobRow)
    → find_row id (extend_one until l jobs) ≡ renewed until (l ∷ []) (find_row id jobs)
extend_one-renewed id until l jobs = elim (Bool-cases (l.id == id)) [
  | inr other ↦ extend_one-other id until l jobs other ∙ sym (untracked id until l jobs other)
  | inl same ↦
      subst (λ x. find_row x (extend_one until l jobs) ≡ renewed until (l ∷ []) (find_row x jobs))
        (ground arith) (extend_one-own until l jobs)
]

tracked-reclaim :
    (until : Time) (row : JobRow) (ls : List Lease)
    → tracked (reclaim until row) ls ≡ tracked row ls
unfolding tracked reclaim
tracked-reclaim until row [] = refl
tracked-reclaim until row (l ∷ ls) =
    ap (λ b. (l.id == row.id && l.attempt == row.attempt) || b) (tracked-reclaim until row ls)

renew_again :
    (until : Time) (ls : List Lease) (row : JobRow)
    → is_running row.state ≡ true
    → some (renew until ls (reclaim until row)) ≡ some (reclaim until row)
renew_again until ls row on =
    elim (Bool-cases (tracked (reclaim until row) ls && is_running (reclaim until row).state)) [
      | inl t ↦ rw t (unfold reclaim in refl)
      | inr t ↦ rw t refl
    ]

renewed-renewed :
    (until : Time) (l : Lease) (ls : List Lease) (o : Option JobRow)
    → renewed until ls (renewed until (l ∷ []) o) ≡ renewed until (l ∷ ls) o
unfolding tracked
renewed-renewed until l ls none = refl
renewed-renewed until l ls (some row) =
    elim (Bool-cases (l.id == row.id && l.attempt == row.attempt)) [
      | inr other ↦ rw other refl
      | inl held ↦ elim (Bool-cases (is_running row.state)) [
        | inr off ↦
            rw (held, off)
              (elim (Bool-cases (tracked row ls)) [ inl t ↦ rw (t, off) refl | inr t ↦ rw t refl ])
        | inl on ↦ rw (held, on) (renew_again until ls row on)
      ]
    ]

extend_all-renewed :
    (id : ℕ) (until : Time) (ls : List Lease) (jobs : List JobRow)
    → find_row id (extend_all until ls jobs) ≡ renewed until ls (find_row id jobs)
unfolding extend_all
extend_all-renewed id until [] jobs = elim (Option-cases (find_row id jobs)) [
  | inl e ↦ rw e refl
  | inr (row, e) ↦ rw e (unfold tracked in refl)
]
extend_all-renewed id until (l ∷ ls) jobs =
    extend_all-renewed id until ls (extend_one until l jobs)
    ∙ ap (renewed until ls) (extend_one-renewed id until l jobs)
    ∙ renewed-renewed until l ls (find_row id jobs)

tracked-insert_by :
    (row : JobRow) (l : Lease) (ls : List Lease)
    → tracked row (insert_by by_id l ls) ≡ tracked row (l ∷ ls)
unfolding tracked insert_by
tracked-insert_by row l [] = refl
tracked-insert_by row l (m ∷ ls) = ground (arith, tracked-insert_by row l ls)

tracked-snapshot :
    (row : JobRow) (inflight : Inflight) → tracked row (snapshot inflight) ≡ tracked row inflight
unfolding snapshot sort_by tracked
tracked-snapshot row [] = refl
tracked-snapshot row (l ∷ ls) =
    tracked-insert_by row l (snapshot ls)
    ∙ ap (λ b. (l.id == row.id && l.attempt == row.attempt) || b) (tracked-snapshot row ls)

renewed-snapshot :
    (until : Time) (inflight : Inflight) (o : Option JobRow)
    → renewed until (snapshot inflight) o ≡ renewed until inflight o
renewed-snapshot until inflight none = refl
renewed-snapshot until inflight (some row) = rw (tracked-snapshot row inflight) refl

renewed-nobody : (until : Time) (o : Option JobRow) → o ≡ renewed until [] o
unfolding tracked
renewed-nobody until none = refl
renewed-nobody until (some row) = refl

unless_empty-renewed :
    (now lease_duration : Time) (leases : List Lease) (s : Store) (id : ℕ)
    → find_row id
        (if length leases == 0 then s else Claim.extend_leases now leases lease_duration s).jobs
      ≡ renewed (now + lease_duration) leases (find_row id s.jobs)
unfolding Claim.extend_leases
unless_empty-renewed now lease_duration [] s id =
    renewed-nobody (now + lease_duration) (find_row id s.jobs)
unless_empty-renewed now lease_duration (l ∷ ls) s id =
    let some_leases : (suc (length ls) == 0) ≡ false = ground arith in
    rw some_leases (extend_all-renewed id (now + lease_duration) (l ∷ ls) s.jobs)

-- After a beat every row of the store is as it was, but that a running row whose attempt is in flight is leased
-- until the beat's time and the lease duration; the other members of the row stay.
pub beat-Renews :
    (now lease_duration : Time) (inflight : Inflight) (s : Store) (id : ℕ)
    → find_row id (beat now lease_duration inflight s).jobs
      ≡ renewed (now + lease_duration) inflight (find_row id s.jobs)
unfolding beat
beat-Renews now lease_duration inflight s id =
    unless_empty-renewed now lease_duration (snapshot inflight) s id
    ∙ renewed-snapshot (now + lease_duration) inflight (find_row id s.jobs)
