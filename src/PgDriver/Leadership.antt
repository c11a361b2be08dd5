-- ===== src/PgDriver/Leadership.antt =====
-- That at most one driver leads, whatever the drivers of a cluster do and whichever sessions end.
use drover.Prelude.{
  ℕ, Bool, true, false, none, some, ◌==◌, ◌≡◌, ◌≢◌, refl, ap, sym, ◌∙◌, arith, Bool-cases,
  Option-cases, inl, inr,
}
use mathlib.Core.Option.{some-injective}
use drover.PgDriver.Leader.{
  Cluster, Faults, end_session, set_conn, retire, close_acquired, release_leader, lock_granted,
  take_lock, acquire_lock, try_become_leader,
}

-- A pool can hand the session out.
pub record Free (session : ℕ) (w : Cluster) : Type 0 where
  pub alive : w.live session ≡ true
  pub kept : w.retired session ≡ false
  pub unused : (d : ℕ) → w.leader_conn d ≢ some session

-- A ping that succeeds reached a session that lives.
abbrev pub PingsTrue : Faults → ℕ → Cluster → Type 0
PingsTrue f driver w =
    (conn : ℕ) → f.ping_fails ≡ false → w.leader_conn driver ≡ some conn → w.live conn ≡ true

pub data Step (w : Cluster) : Cluster → Type 0 where
  tries :
      (f : Faults) (reaches : Bool) (driver session : ℕ)
      → Free session w
      → PingsTrue f driver w
      → Step w (try_become_leader f reaches driver session w).0
  releases : (reaches : Bool) (driver : ℕ) → Step w (release_leader reaches driver w)
  ends : (session : ℕ) → Step w (end_session session w)

abbrev pub start : Cluster
start = record { holder = none; live = λ s. true; leader_conn = λ d. none; retired = λ s. false }

pub data Reached : Cluster → Type 0 where
  begun : Reached start
  moved : {w w' : Cluster} → Reached w → Step w w' → Reached w'

-- The driver believes that it leads, and its session is still there.
abbrev pub Leads : ℕ → Cluster → Type 0
Leads d w = (s : ℕ) × (w.leader_conn d ≡ some s) × (w.live s ≡ true)

pub record Fair (w : Cluster) : Type 0 where
  pub locks : (d s : ℕ) → w.leader_conn d ≡ some s → w.live s ≡ true → w.holder ≡ some s
  pub single : (d d' s : ℕ) → w.leader_conn d ≡ some s → w.leader_conn d' ≡ some s → d ≡ d'

end_session-Fair : (session : ℕ) (w : Cluster) → Fair w → Fair (end_session session w)
unfolding end_session
end_session-Fair session w v = record {
  locks = λ d s e l. elim (Bool-cases (s == session)) [
    | inl same ↦ absurd (ground arith)
    | inr other ↦ let held = v.locks d s e (ground arith) in rw held (rw other refl)
  ];
  single = v.single;
}

retire-Fair : (session : ℕ) (w : Cluster) → Fair w → Fair (retire session w)
retire-Fair session w v = record { locks = v.locks; single = v.single }

drop_conn-Fair : (driver : ℕ) (w : Cluster) → Fair w → Fair (set_conn driver none w)
drop_conn-Fair driver w v = record {
  locks = λ d s e l. elim (Bool-cases (d == driver)) [
    | inl same ↦ absurd (ground arith)
    | inr other ↦ v.locks d s (ground arith) l
  ];
  single = λ d d' s e e'. elim (Bool-cases (d == driver)) [
    | inl same ↦ absurd (ground arith)
    | inr other ↦ elim (Bool-cases (d' == driver)) [
      | inl same' ↦ absurd (ground arith)
      | inr other' ↦ v.single d d' s (ground arith) (ground arith)
    ]
  ];
}

close_acquired-Fair :
    (reaches : Bool) (session : ℕ) (w : Cluster) → Fair w → Fair (close_acquired reaches session w)
unfolding close_acquired
close_acquired-Fair true session w v = end_session-Fair session _ (retire-Fair session w v)
close_acquired-Fair false session w v = retire-Fair session w v

release_leader-Fair :
    (reaches : Bool) (driver : ℕ) (w : Cluster) → Fair w → Fair (release_leader reaches driver w)
unfolding release_leader
release_leader-Fair reaches driver w v = elim (Option-cases (w.leader_conn driver)) [
  | inl e ↦ rw (e, release_leader) v
  | inr (session, e) ↦
      rw (e, release_leader) (drop_conn-Fair driver _ (close_acquired-Fair reaches session w v))
]

-- A granted lock was free or the session's own.
take_lock-Fair :
    (session : ℕ) (w : Cluster)
    → lock_granted session w ≡ true
    → Fair w
    → Fair (take_lock session w)
take_lock-Fair session w granted v = record {
  locks = λ d s e l. let held = v.locks d s e l in ground arith;
  single = v.single;
}

lead-Fair :
    (driver session : ℕ) (w : Cluster)
    → Free session w
    → lock_granted session w ≡ true
    → Fair w
    → Fair (set_conn driver (some session) (take_lock session w))
lead-Fair driver session w free granted v = record {
  locks = λ d s e l. elim (Bool-cases (d == driver)) [
    | inl same ↦ ground arith
    | inr other ↦ let held = v.locks d s (ground arith) l in ground arith
  ];
  single = λ d d' s e e'. elim (Bool-cases (d == driver)) [
    | inl same ↦ elim (Bool-cases (d' == driver)) [
      | inl same' ↦ ground arith
      | inr other' ↦ absurd (free.unused d' (ground arith))
    ]
    | inr other ↦ elim (Bool-cases (d' == driver)) [
      | inl same' ↦ absurd (free.unused d (ground arith))
      | inr other' ↦ v.single d d' s (ground arith) (ground arith)
    ]
  ];
}

acquire_lock-Fair :
    (f : Faults) (reaches : Bool) (driver session : ℕ) (w : Cluster)
    → Free session w
    → Fair w
    → Fair (acquire_lock f reaches driver session w).0
unfolding acquire_lock
acquire_lock-Fair f reaches driver session w free v = elim (Bool-cases f.acquire_fails) [
  | inl a ↦ rw a v
  | inr a ↦ elim (Bool-cases f.query_fails) [
    | inl q ↦ elim (Bool-cases (lock_granted session w)) [
      | inl g ↦ rw (a, q, g) (close_acquired-Fair reaches session _ (take_lock-Fair session w g v))
      | inr g ↦ rw (a, q, g) (close_acquired-Fair reaches session w v)
    ]
    | inr q ↦ elim (Bool-cases (lock_granted session w)) [
      | inl g ↦ rw (a, q, g) (lead-Fair driver session w free g v)
      | inr g ↦ rw (a, q, g) v
    ]
  ]
]

-- A session that a pool can hand out is none that a release retires.
release_leader-Free :
    (reaches : Bool) (driver session : ℕ) (w : Cluster)
    → Free session w
    → Free session (release_leader reaches driver w)
unfolding release_leader close_acquired end_session
release_leader-Free reaches driver session w free = elim (Option-cases (w.leader_conn driver)) [
  | inl e ↦ rw (e, release_leader) free
  | inr (conn, e) ↦
      let other : (session == conn) ≡ false = elim (Bool-cases (session == conn)) [
        | inl same ↦ absurd (free.unused driver (ground arith))
        | inr b ↦ b
      ] in
      rw (e, release_leader)
        (elim (Bool-cases reaches) [
          | inl r ↦ rw r (record {
            alive = rw other free.alive;
            kept = rw other free.kept;
            unused = λ d u. free.unused d (ground arith);
          })
          | inr r ↦ rw r (record {
            alive = free.alive;
            kept = rw other free.kept;
            unused = λ d u. free.unused d (ground arith);
          })
        ])
]

Step-Fair : {w w' : Cluster} → Step w w' → Fair w → Fair w'
Step-Fair {w} (tries f reaches driver session free pings) v =
    elim (Option-cases (w.leader_conn driver)) [
      | inl e ↦
          unfold try_become_leader in
          rw (e, try_become_leader) (acquire_lock-Fair f reaches driver session w free v)
      | inr (conn, e) ↦ elim (Bool-cases f.ping_fails) [
        | inr p ↦ unfold try_become_leader in rw (e, try_become_leader) (rw p v)
        | inl p ↦
            unfold try_become_leader in
            rw (e, try_become_leader)
              (rw p (
                acquire_lock-Fair f reaches driver session (release_leader reaches driver w)
                  (release_leader-Free reaches driver session w free)
                  (release_leader-Fair reaches driver w v)))
      ]
    ]
Step-Fair {w} (releases reaches driver) v = release_leader-Fair reaches driver w v
Step-Fair {w} (ends session) v = end_session-Fair session w v

Reached-Fair : {w : Cluster} → Reached w → Fair w
Reached-Fair begun = record {
  locks = λ d s e l. absurd (ground arith);
  single = λ d d' s e e'. absurd (ground arith);
}
Reached-Fair (moved r step) = Step-Fair step (Reached-Fair r)

-- In every cluster that drivers can reach by trying for and releasing the lock, with pings, queries and
-- closes that fail and sessions that end at any moment, at most one driver that believes it leads has a
-- session that is still there.
pub Reached-Leads : (w : Cluster) (d d' : ℕ) → Reached w → Leads d w → Leads d' w → d ≡ d'
Reached-Leads w d d' r (s, e, l) (s', e', l') =
    let v = Reached-Fair r in
    let same : s ≡ s' = some-injective s s' (sym (v.locks d s e l) ∙ v.locks d' s' e' l') in
    v.single d d' s' (e ∙ ap some same) e'
