-- ===== src/Pool/Runner/Late.antt =====
-- A claim that lands while the budget of a shutdown runs out.
use drover.Prelude.{
  ℕ, zero, suc, ◌-◌, ◌<◌, ◌≤◌, ◌≡◌, refl, ap, subst, true, false, [], ◌∷◌, none, arith, inl,
  sort_by,
}
use drover.Driver.{Lease}
use drover.Inflight.{snapshot}
use drover.Pool.Runner.{
  acquiring, drained, Runner, new_runner, takes, has_enough, claims, hands, leaves, stops_beating,
  joins, stops, expires, stopping, Run, here, moves, signals, stranded,
}

-- The background goroutines return one by one.
all_leave :
    {c k : ℕ} {p : Runner} (q : Runner) (n : ℕ)
    → q.background ≡ n
    → stopping q.drain ≡ true
    → Run c p k q
    → (j : ℕ) × Run c p j (record q { background = 0 })
all_leave {c} {k} {p} q zero e stop r =
    (k, subst (Run c p k) (ap (λ n. record q { background = n }) e) r)
all_leave q (suc n) e stop r =
    all_leave (record q { background = q.background - 1 }) n (omega arith) stop
      (moves r (leaves stop (omega arith)))

taken : ℕ → ℕ → ℕ → Runner
taken c b n = record (new_runner c b) { idle = c - n; fetcher = acquiring n }

-- An idle pool takes all its tokens.
take_all : (c b n : ℕ) → suc n ≤ c → (k : ℕ) × Run c (new_runner c b) k (taken c b (suc n))
unfolding taken
take_all c b zero h =
    (1, subst (Run c (new_runner c b) 1) (ground arith) (moves here (takes 0 refl h h)))
take_all c b (suc n) h =
    let (k, r) = take_all c b n (omega arith) in
    (
      suc k,
      subst (Run c (new_runner c b) (suc k)) (ground arith)
          (moves r (takes (suc n) refl (omega arith) h)),
    )

-- Stop can report a clean shutdown although a job is claimed: when its budget runs out after the driver has
-- handed out the job and before the fetch loop tracks it, drain counts no job, stops the heartbeat, cancels the
-- handlers' context and returns, and the fetch loop may then hand the job to a worker.
pub clean_stop-leaves_job :
    (c b : ℕ) (l : Lease)
    → 0 < c
    → (k : ℕ) × (q : Runner) × Run c (new_runner c b) k q
      × (q.drain ≡ drained none)
      × (q.running ≡ l ∷ [])
      × (q.beating ≡ false)
      × (q.job_live ≡ false)
unfolding taken stranded snapshot sort_by
clean_stop-leaves_job (suc c) b l some_worker =
    let (k, r) = take_all (suc c) b c (omega arith) in
    let asking = moves r (has_enough (suc c) refl some_worker (inl refl)) in
    let expired = signals (signals asking (stops refl)) (expires refl) in
    let (j, alone) = all_leave _ b refl refl expired in
    let over = moves (moves alone (stops_beating refl refl)) (joins none refl refl refl) in
    let landed = moves over (claims (suc c) true (l ∷ []) refl (omega arith)) in
    let handed = moves landed (hands l [] refl (omega arith)) in
    (_, _, handed, refl, refl, refl, refl)
clean_stop-leaves_job zero b l some_worker = absurd (omega arith)
