-- ===== src/Rescue/Laws.antt =====
-- What one sweep does to the store, and how many rows it takes.
use drover.Prelude.{
  ℕ, zero, suc, ◌+◌, ◌*◌, ◌≡◌, refl, ◌≤◌, ◌≢◌, ◌⊎◌, inl, inr, Bool, ◌||◌, List, [], ◌∷◌, none, some,
  arith, ltb, length, Bool-cases, Result-cases, All, ap, ◌∙◌, ◌==◌, ==_iff,
}
use drover.Driver.{Time, JobState, retryable, dead, JobRow}
use drover.Retry.{RetryPolicy}
use drover.Contract.{Driver}
use drover.Dispose.{Marshal, Moment, dispose}
use drover.Dispose.Laws.{fate, dispose-EndsAs}
use drover.Outcome.{classify_outcome, outcome_failed}
use drover.Rescue.{
  rescue_batch, rescue_rounds, err_lease_expired, dispose_rows, rescue_from, rescue_once,
}

lapsed-fails : classify_outcome err_lease_expired ≡ (outcome_failed, 0)
unfolding classify_outcome
lapsed-fails = refl

module _ {S : Type 0} (drv : Driver S) (marshal : Marshal) (policy : RetryPolicy)
    (moments : ℕ → Moment) (stopped : ℕ → Bool) where
  -- The job is as it was, or its lapsed attempt counts as failed.
  abbrev pub KeptOrFailed : ℕ → S → S → Type 0
  KeptOrFailed id s s' =
      (drv.look id s' ≡ drv.look id s)
      ⊎ ((r : JobRow) × (drv.look id s' ≡ some r)
          × ((r.state ≡ dead) ⊎ (r.state ≡ retryable))
          × (r.leased_until ≡ none))

  failed-fate :
      (row : JobRow) → (fate row outcome_failed ≡ dead) ⊎ (fate row outcome_failed ≡ retryable)
  failed-fate row = ground arith

  dispose-KeptOrFailed :
      (id : ℕ) (m : Moment) (row : JobRow) (s : S)
      → KeptOrFailed id s (dispose drv marshal policy m row err_lease_expired s)
  dispose-KeptOrFailed id m row s =
      elim (dispose-EndsAs drv marshal policy m row err_lease_expired s) [
        | inl same ↦ inl (ap (drv.look id) same)
        | inr lands ↦ elim (Bool-cases (id == row.id)) [
          | inr ne ↦ inl (lands.others id (ground arith))
          | inl e ↦
              let (r, here, state, free) = lands.after in
              inr (
                r,
                ap (λ n. drv.look n (dispose drv marshal policy m row err_lease_expired s))
                      ((==_iff id row.id).0 e)
                    ∙ here,
                ends row r.state state,
                free,
              )
        ]
      ]
    where
      ends :
          (row : JobRow) (state : JobState)
          → state ≡ fate row (classify_outcome err_lease_expired).0
          → (state ≡ dead) ⊎ (state ≡ retryable)
      ends row state h = elim (failed-fate row) [
        | inl d ↦ inl (h ∙ ap (λ o. fate row o.0) lapsed-fails ∙ d)
        | inr d ↦ inr (h ∙ ap (λ o. fate row o.0) lapsed-fails ∙ d)
      ]

  KeptOrFailed-trans :
      (id : ℕ) (a b c : S) → KeptOrFailed id a b → KeptOrFailed id b c → KeptOrFailed id a c
  KeptOrFailed-trans id a b c p (inr q) = inr q
  KeptOrFailed-trans id a b c (inl p) (inl q) = inl (q ∙ p)
  KeptOrFailed-trans id a b c (inr (r, here, p, free)) (inl q) = inr (r, q ∙ here, p, free)

  -- Disposing of a round's rows leaves a job that is not among them as it was, and any other as it was
  -- or with its attempt failed: dead or retryable, without a lease.
  pub dispose_rows-KeptOrFailed :
      (id rescued : ℕ) (rows : List JobRow) (s : S)
      → KeptOrFailed id s (dispose_rows drv marshal policy moments stopped rescued rows s)
        × (All (λ r. id ≢ r.id) rows
            → drv.look id (dispose_rows drv marshal policy moments stopped rescued rows s)
              ≡ drv.look id s)
  unfolding dispose_rows
  dispose_rows-KeptOrFailed id rescued [] s = (inl refl, λ h. refl)
  dispose_rows-KeptOrFailed id rescued (row ∷ rows) s =
      let s' = dispose drv marshal policy (moments rescued) row err_lease_expired s in
      let rest = dispose_rows-KeptOrFailed id (rescued + 1) rows s' in
      (
        KeptOrFailed-trans id s s' _ (dispose-KeptOrFailed id (moments rescued) row s) rest.0,
        λ h. rest.1 h.1 ∙ untouched h.0,
      )
    where
      untouched :
          id ≢ row.id
          → drv.look id (dispose drv marshal policy (moments rescued) row err_lease_expired s)
            ≡ drv.look id s
      untouched ne =
          elim (dispose-EndsAs drv marshal policy (moments rescued) row err_lease_expired s) [
            | inl same ↦ ap (drv.look id) same
            | inr lands ↦ lands.others id ne
          ]

  rescue_from-limit :
      (clock : ℕ → Time) (lease : Time) (rounds rescued : ℕ) (s : S)
      → (rescue_from drv marshal policy moments stopped clock lease rounds rescued s).1.0
        ≤ rescued + rescue_batch * rounds
  unfolding rescue_from
  rescue_from-limit clock lease zero rescued s = omega arith
  rescue_from-limit clock lease (suc rounds) rescued s =
      let fetched = drv.fetch_expired (clock rescued) lease rescue_batch s in
      elim (Result-cases fetched.1) [
        | inr (e, f) ↦ rw (f, rescue_from) (omega arith)
        | inl (rows, f) ↦
            let few = drv.expired_lem (clock rescued) lease rescue_batch s rows f in
            let s' = dispose_rows drv marshal policy moments stopped rescued rows fetched.0 in
            let rest = rescue_from-limit clock lease rounds (rescued + length rows) s' in
            rw (f, rescue_from)
              (elim (Bool-cases (ltb (length rows) rescue_batch || stopped rounds)) [
                | inl last ↦ rw last (omega arith)
                | inr more ↦ rw more (omega arith)
              ])
      ]

  -- One sweep counts at most a thousand jobs as rescued, whatever the driver answers, since the driver
  -- never hands out more rows than it was asked for.
  pub rescue_once-limit :
      (clock : ℕ → Time) (lease : Time) (s : S)
      → (rescue_once drv marshal policy moments stopped clock lease s).1.0 ≤ 1000
  unfolding rescue_once
  rescue_once-limit clock lease s = omega (arith, rescue_from-limit clock lease rescue_rounds 0 s)
