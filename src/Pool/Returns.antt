-- ===== src/Pool/Returns.antt =====
-- What the hand-backs of a shutdown do to the store, over any driver that keeps the contract.
use drover.Prelude.{
  ℕ, ◌≡◌, refl, ◌≢◌, ◌⊎◌, inl, inr, List, [], ◌∷◌, none, some, arith, ◌==◌, ==_iff, Bool-cases,
  Option-cases, length, Result, ok, err, false, All, Pairs, All-sort_by, ap, sym, subst, ◌∙◌,
}
use drover.Driver.{Time, Bytes, retryable, Lease, JobRow, Error, encode_errors}
use drover.Inflight.{Inflight, by_id, snapshot}
use drover.Contract.{Driver, Lands}
use drover.Outcome.{message}
use drover.Dispose.{AttemptError}
use drover.Dispose.{Marshal, requeue}
use drover.Pool.{requeue_all, escalate}

module _ {S : Type 0} (drv : Driver S) (marshal : Marshal) (stamps clock : Lease → Time) where
  abbrev pub give_back : Lease → S → S × Result Error (Unit {0})
  give_back l s = requeue drv marshal (stamps l) (clock l) l s

  -- The job is as it was, or waits for another attempt.
  abbrev pub KeptOrReturned : ℕ → S → S → Type 0
  KeptOrReturned id s s' =
      (drv.look id s' ≡ drv.look id s)
      ⊎ ((r : JobRow) × (drv.look id s' ≡ some r) × (r.state ≡ retryable) × (r.leased_until ≡ none))

  requeue-cases :
      (l : Lease) (s : S) → ((give_back l s).0 ≡ s) ⊎ Lands drv.look l retryable s (give_back l s).0
  unfolding requeue
  requeue-cases l s =
      elim (Option-cases (
        marshal (record {
          attempt = l.attempt;
          at = stamps l;
          error = message "drover: worker shut down before this attempt finished";
          trace = [];
        }))) [
          | inl n ↦ rw (n, requeue) (inl refl)
          | inr (detail, d) ↦ rw (d, requeue) (landed detail)
        ]
    where
      landed :
          (detail : Bytes)
          → ((drv.mark_retryable l (clock l) (some detail) s).0 ≡ s)
            ⊎ Lands drv.look l retryable s (drv.mark_retryable l (clock l) (some detail) s).0
      landed detail = elim (drv.retryable_lem l (clock l) (some detail) s) [
        | inl (e, lands) ↦ inr lands
        | inr (e, f) ↦ inl (ap (λ o. o.0) f)
      ]

  requeue-KeptOrReturned : (id : ℕ) (l : Lease) (s : S) → KeptOrReturned id s (give_back l s).0
  requeue-KeptOrReturned id l s = elim (requeue-cases l s) [
    | inl same ↦ inl (ap (drv.look id) same)
    | inr lands ↦ elim (Bool-cases (id == l.id)) [
      | inr ne ↦ inl (lands.others id (ground arith))
      | inl e ↦
          let (r, here, state, free) = lands.after in
          inr (r, ap (λ n. drv.look n (give_back l s).0) ((==_iff id l.id).0 e) ∙ here, state, free)
    ]
  ]

  requeue-others :
      (id : ℕ) (l : Lease) (s : S) → id ≢ l.id → drv.look id (give_back l s).0 ≡ drv.look id s
  requeue-others id l s ne = elim (requeue-cases l s) [
    | inl same ↦ ap (drv.look id) same
    | inr lands ↦ lands.others id ne
  ]

  requeue_all-KeptOrReturned :
      (id : ℕ) (ls : List Lease) (s : S)
      → KeptOrReturned id s (requeue_all give_back ls s)
        × (All (λ l. id ≢ l.id) ls → drv.look id (requeue_all give_back ls s) ≡ drv.look id s)
  unfolding requeue_all
  requeue_all-KeptOrReturned id [] s = (inl refl, λ h. refl)
  requeue_all-KeptOrReturned id (l ∷ ls) s =
      let rest = requeue_all-KeptOrReturned id ls (give_back l s).0 in
      (after rest.0 (requeue-KeptOrReturned id l s), λ h. rest.1 h.1 ∙ requeue-others id l s h.0)
    where
      after : {a b c : S} → KeptOrReturned id b c → KeptOrReturned id a b → KeptOrReturned id a c
      after (inr q) p = inr q
      after (inl q) (inl p) = inl (q ∙ p)
      after (inl q) (inr (r, here, state, free)) = inr (r, q ∙ here, state, free)

  abbrev pub Among : Lease → List Lease → Type 0
  Among l [] = ⊥
  Among l (x ∷ xs) = (l ≡ x) ⊎ Among l xs

  -- The job waits for another attempt without a lease.
  abbrev pub Returned : ℕ → S → Type 0
  Returned id s =
      (r : JobRow) × (drv.look id s ≡ some r) × (r.state ≡ retryable) × (r.leased_until ≡ none)

  -- The driver takes the hand-back of the lease as long as its job is as in `s`.
  abbrev pub Takes : Lease → S → Type 0
  Takes l s = (u : S) → drv.look l.id u ≡ drv.look l.id s → (give_back l u).1 ≡ ok tt

  abbrev shutdown_record : Lease → AttemptError
  shutdown_record l = record {
    attempt = l.attempt;
    at = stamps l;
    error = message "drover: worker shut down before this attempt finished";
    trace = [];
  }

  err_not_ok : (o : Result Error (Unit {0})) (e : Error) → o ≡ err e → o ≡ ok tt → ⊥
  err_not_ok o e p q = cc

  apart_from :
      (l x : Lease) (xs : List Lease)
      → All (λ (y : Lease). x.id ≢ y.id) xs
      → Among l xs
      → x.id ≢ l.id
  apart_from l x (y ∷ ys) h (inl e) same = h.0 (same ∙ ap (λ (z : Lease). z.id) e)
  apart_from l x (y ∷ ys) h (inr rest) same = apart_from l x ys h.1 rest same
  apart_from l x [] h among same = among

  not_empty : (l : Lease) (ls : List Lease) → Among l ls → (length ls == 0) ≡ false
  not_empty l [] among = absurd among
  not_empty l (x ∷ xs) among = ground arith

  taken-Lands :
      (l : Lease) (u : S)
      → (give_back l u).1 ≡ ok tt
      → Lands drv.look l retryable u (give_back l u).0
  unfolding requeue
  taken-Lands l u h = elim (Option-cases (marshal (shutdown_record l))) [
    | inl n ↦ absurd (err_not_ok (give_back l u).1 (encode_errors l.id) (rw (n, requeue) refl) h)
    | inr (detail, d) ↦ elim (drv.retryable_lem l (clock l) (some detail) u) [
      | inl (e, lands) ↦ rw (d, requeue) lands
      | inr (e, f) ↦ absurd (err_not_ok (give_back l u).1 e (rw (d, requeue) (ap (λ o. o.1) f)) h)
    ]
  ]

  requeue_all-Returned :
      (l : Lease) (s u : S) (ls : List Lease)
      → Takes l s
      → Pairs (λ (a b : Lease). a.id ≢ b.id) ls
      → Among l ls
      → drv.look l.id u ≡ drv.look l.id s
      → Returned l.id (requeue_all give_back ls u)
  unfolding requeue_all
  requeue_all-Returned l s u (x ∷ xs) takes apart (inl e) same =
      let (r, here, state, free) = (taken-Lands l u (takes u same)).after in
      let others : All (λ (y : Lease). l.id ≢ y.id) xs =
        subst (λ (y : Lease). All (λ (z : Lease). y.id ≢ z.id) xs) (sym e) apart.0 in
      let first = subst (λ y. drv.look l.id (give_back y u).0 ≡ some r) e here in
      (r, (requeue_all-KeptOrReturned l.id xs (give_back x u).0).1 others ∙ first, state, free)
  requeue_all-Returned l s u (x ∷ xs) takes apart (inr rest) same =
      requeue_all-Returned l s (give_back x u).0 xs takes apart.1 rest
        (requeue-others l.id x u (λ e. apart_from l x xs apart.0 rest (sym e)) ∙ same)
  requeue_all-Returned l s u [] takes apart among same = absurd among

  -- When the budget of a shutdown is spent, a job that is then tracked, on the one lease tracked for it, and that the
  -- driver takes back as long as its row is as it was, waits for another attempt without a lease; the shutdown
  -- reports how many jobs were tracked, and a job that is not tracked stays as it was.
  pub escalate-Returned :
      (s : S) (t : Inflight) (l : Lease)
      → Pairs (λ (a b : Lease). a.id ≢ b.id) (snapshot t)
      → Among l (snapshot t)
      → Takes l s
      → let out = escalate give_back s t in
        Returned l.id out.0
        × (out.1 ≡ some (length (snapshot t)))
        × ((id : ℕ) → All (λ x. id ≢ x.id) t → drv.look id out.0 ≡ drv.look id s)
  unfolding escalate
  escalate-Returned s t l apart among takes =
      let some_tracked : (length (snapshot t) == 0) ≡ false = not_empty l (snapshot t) among in
      rw some_tracked (
        requeue_all-Returned l s s (snapshot t) takes apart among refl,
        refl,
        λ id h.
            (requeue_all-KeptOrReturned id (snapshot t) s).1
              (unfold snapshot in All-sort_by by_id (λ x. id ≢ x.id) t h),
      )
