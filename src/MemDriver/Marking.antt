-- ===== src/MemDriver/Marking.antt =====
-- What the Mark methods of memdriver.go record, and when they refuse.
use drover.Prelude.{
  ◌≡◌, refl, true, List, [], ◌∷◌, ◌++◌, map, none, some, arith, ◌==◌, Bool-cases, Option-cases, inl,
  inr, ◌⊎◌, Result, ok, err, Result-cases, ==_iff,
}
use drover.Driver.{
  Time, Bytes, retryable, Lease, JobRow, Error, Codec, not_found, invalid_transition, lease_lost,
}
use drover.MemDriver.Rows.{Store, find_row, put_row}
use drover.MemDriver.RowLaws.{find_row-put_row, find_row-id}
use drover.MemDriver.Claim.{is_running}
use drover.MemDriver.Mark.{append_error, commit, transition, retried, mark_retryable}

-- The holder's write: the job is running on the attempt of the lease, and `x` replaces it unleased.
abbrev pub Written : Lease → (JobRow → Result Error JobRow) → Store → Store → Type 0
Written lease apply s s' =
    (r : JobRow) × (x : JobRow) × (find_row lease.id s.jobs ≡ some r)
    × (is_running r.state ≡ true)
    × (r.attempt ≡ lease.attempt)
    × (apply r ≡ ok x)
    × (s' ≡ record s { jobs = put_row (record x { leased_until = none }) s.jobs })

-- A Mark method writes only for the holder of the lease: the job is running on the lease's attempt,
-- and its row is replaced with the lease cleared. In every other case it fails and the store stays.
pub transition-holder :
    (lease : Lease) (apply : JobRow → Result Error JobRow) (s : Store)
    → let after = transition lease apply s in
      ((after.1 ≡ ok tt) × Written lease apply s after.0) ⊎ ((e : Error) × (after ≡ (s, err e)))
unfolding transition
transition-holder lease apply s = elim (Option-cases (find_row lease.id s.jobs)) [
  | inl e ↦ inr (not_found lease.id, rw (e, transition) refl)
  | inr (r, e) ↦ elim (Bool-cases (is_running r.state)) [
    | inr off ↦ inr (invalid_transition lease.id r.state, rw (e, transition) (rw off refl))
    | inl on ↦ elim (Bool-cases (r.attempt == lease.attempt)) [
      | inr lost ↦
          inr (lease_lost lease.id r.attempt lease.attempt, rw (e, transition) (rw (on, lost) refl))
      | inl held ↦ elim (Result-cases (apply r)) [
        | inr (f, a) ↦ inr (f, rw (e, transition) (rw (on, held, a, commit) refl))
        | inl (x, a) ↦ inl (
          rw (e, transition) (rw (on, held, a, commit) refl),
          (
            r,
            x,
            e,
            on,
            (==_iff r.attempt lease.attempt).0 held,
            a,
            rw (e, transition) (rw (on, held, a, commit) refl),
          ),
        )
      ]
    ]
  ]
]

-- `x` is `r` with one more recorded error.
abbrev pub Recorded : Codec → Bytes → JobRow → JobRow → Type 0
Recorded codec detail r x =
    (xs : List Bytes) × (codec.decode r.errors ≡ some xs)
    × (codec.decode x.errors ≡ some (map codec.compact (xs ++ detail ∷ [])))

append_error-Recorded :
    (codec : Codec) (detail : Bytes) (r x : JobRow)
    → append_error codec (some detail) r ≡ ok x
    → Recorded codec detail r x
unfolding append_error
append_error-Recorded codec detail r x h = elim (Option-cases (codec.decode r.errors)) [
  | inl e ↦ absurd (ground arith)
  | inr (xs, e) ↦ elim (Option-cases (codec.encode (xs ++ detail ∷ []))) [
    | inl e' ↦ absurd (ground arith)
    | inr (b, e') ↦ (xs, e, ground (arith, codec.decode-encode (xs ++ detail ∷ []) b e'))
  ]
]

retried-row :
    (codec : Codec) (at : Time) (detail : Bytes) (r x : JobRow)
    → retried codec at (some detail) r ≡ ok x
    → (y : JobRow) × (append_error codec (some detail) r ≡ ok y)
      × (x ≡ record y { state = retryable; scheduled_at = at })
      × (y.id ≡ r.id)
      × (y.attempt ≡ r.attempt)
unfolding retried append_error
retried-row codec at detail r x h = elim (Result-cases (append_error codec (some detail) r)) [
  | inr (f, e) ↦ absurd (ground arith)
  | inl (y, e) ↦ (y, e, ground arith, ground arith, ground arith)
]

-- When MarkRetryable succeeds, the job waits as retryable for `at`, unleased, on the attempt that the
-- lease names, and its errors array is the old one with the detail at the end (each element as the
-- encoder writes it compactly).
pub mark_retryable-records :
    (codec : Codec) (lease : Lease) (at : Time) (detail : Bytes) (s : Store)
    → (mark_retryable codec lease at (some detail) s).1 ≡ ok tt
    → let jobs = (mark_retryable codec lease at (some detail) s).0.jobs in
      (r : JobRow) × (r' : JobRow) × (find_row lease.id s.jobs ≡ some r)
      × (find_row lease.id jobs ≡ some r')
      × (r'.state ≡ retryable)
      × (r'.scheduled_at ≡ at)
      × (r'.leased_until ≡ none)
      × (r'.attempt ≡ lease.attempt)
      × Recorded codec detail r r'
unfolding mark_retryable
mark_retryable-records codec lease at detail s h =
    elim (transition-holder lease (retried codec at (some detail)) s) [
      | inr (e, f) ↦ absurd (ground arith)
      | inl (done, (r, x, here, on, held, a, stored)) ↦
          let (y, b, made, id, attempt) = retried-row codec at detail r x a in
          let (xs, before, after) = append_error-Recorded codec detail r y b in
          (
            r,
            record x { leased_until = none },
            here,
            ground (
              arith,
              find_row-put_row lease.id (record x { leased_until = none }) s.jobs,
              find_row-id lease.id r s.jobs here,
            ),
            ground arith,
            ground arith,
            refl,
            ground arith,
            (xs, before, rw made after),
          )
    ]
