-- ===== src/PgDriver/Leader.antt =====
-- TryBecomeLeader and ReleaseLeader of pgdriver.go: the session lock of the periodic scheduler, between
-- the drivers of several processes and one database. A session is a number; the database drops the lock
-- of a session that ends. A connection that has been checked out for the lock is never handed out again.
use drover.Prelude.{
  ℕ, Bool, true, false, not, Option, none, some, ◌==◌, if◌then◌else◌, Result, ok, err,
}
use drover.Driver.{Error, statement_failed}

-- The database's side: who holds the lock, and which sessions live. The drivers' side: leaderConn of
-- each. `retired` are the sessions that closeAcquiredConn took from a pool.
pub record Cluster : Type 0 where
  pub holder : Option ℕ
  pub live : ℕ → Bool
  pub leader_conn : ℕ → Option ℕ
  pub retired : ℕ → Bool

-- What the calls of one TryBecomeLeader meet: whether the ping fails, whether a connection is acquired,
-- whether the query fails, and whether the context is done.
pub record Faults : Type 0 where
  pub ping_fails : Bool
  pub acquire_fails : Bool
  pub query_fails : Bool
  pub ctx_done : Bool

abbrev pub is_holder : ℕ → Option ℕ → Bool
is_holder session none = false
is_holder session (some h) = h == session

-- The session ends on the database's side.
unfoldable pub end_session : ℕ → Cluster → Cluster
end_session session w = record w {
  holder = if is_holder session w.holder then none else w.holder;
  live = λ s. if s == session then false else w.live s;
}

abbrev pub set_conn : ℕ → Option ℕ → Cluster → Cluster
set_conn driver conn w = record w {
  leader_conn = λ d. if d == driver then conn else w.leader_conn d;
}

abbrev pub retire : ℕ → Cluster → Cluster
retire session w = record w { retired = λ s. if s == session then true else w.retired s }

-- closeAcquiredConn: the session ends, unless the close does not reach the database.
unfoldable pub close_acquired : Bool → ℕ → Cluster → Cluster
unfolding end_session
close_acquired reaches session w =
    if reaches then end_session session (retire session w) else retire session w

-- closeLeaderConnLocked, and with it ReleaseLeader.
unfoldable pub release_leader : Bool → ℕ → Cluster → Cluster
unfolding close_acquired
release_leader reaches driver w = elim (w.leader_conn driver) [
  | none ↦ w
  | some session ↦ set_conn driver none (close_acquired reaches session w)
]

-- pg_try_advisory_lock: the session that holds the lock gets it again.
abbrev pub lock_granted : ℕ → Cluster → Bool
lock_granted session w = elim w.holder [ none ↦ true | some h ↦ h == session ]

abbrev pub take_lock : ℕ → Cluster → Cluster
take_lock session w = record w { holder = some session }

abbrev failure_of : Faults → Result Error Bool
failure_of f = if f.ctx_done then ok false else err (statement_failed 0)

-- From the acquisition of `session` on. A query that fails may have taken the lock.
unfoldable pub acquire_lock : Faults → Bool → ℕ → ℕ → Cluster → Cluster × Result Error Bool
unfolding close_acquired
acquire_lock f reaches driver session w =
    if f.acquire_fails
    then (w, failure_of f)
    else if f.query_fails
    then (
      close_acquired reaches session (if lock_granted session w then take_lock session w else w),
      failure_of f,
    )
    else if lock_granted session w
    then (set_conn driver (some session) (take_lock session w), ok true)
    else (w, ok false)

unfoldable pub try_become_leader : Faults → Bool → ℕ → ℕ → Cluster → Cluster × Result Error Bool
unfolding release_leader acquire_lock
try_become_leader f reaches driver session w = elim (w.leader_conn driver) [
  | none ↦ acquire_lock f reaches driver session w
  | some conn ↦
      if not f.ping_fails
      then (w, ok true)
      else acquire_lock f reaches driver session (release_leader reaches driver w)
]
