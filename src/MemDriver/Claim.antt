-- ===== src/MemDriver/Claim.antt =====
-- FetchAvailable, FetchExpired, ExtendLeases and selectRows of internal/memdriver/memdriver.go.
-- A limit is a number: the callers pass at least 1.
use drover.Prelude.{
  ℕ, ◌+◌, String, Bool, true, false, not, ◌&&◌, ◌||◌, List, [], ◌∷◌, none, some, ltb, leb, ◌==◌,
  str_eq, if◌then◌else◌, keep_if, sort_by,
}
use drover.Driver.{Time, JobState, available, scheduled, running, retryable, Lease, JobRow}
use drover.MemDriver.Rows.{Store, find_row, put_row}

abbrev pub waiting : JobState → Bool
waiting available = true
waiting retryable = true
waiting scheduled = true
waiting _ = false

abbrev pub is_running : JobState → Bool
is_running running = true
is_running _ = false

unfoldable pub by_scheduled_at : JobRow → Time
by_scheduled_at row = row.scheduled_at

unfoldable pub by_leased_until : JobRow → Time
by_leased_until row = elim row.leased_until [ none ↦ 0 | some t ↦ t ]

-- The comparison of selectRows: by `order`, then by id.
unfoldable pub row_before : (JobRow → Time) → JobRow → JobRow → Bool
row_before order a b = if order a == order b then leb a.id b.id else ltb (order a) (order b)

unfoldable pub select_rows : (JobRow → Time) → (JobRow → Bool) → List JobRow → List JobRow
select_rows order keep jobs = sort_by (row_before order) (keep_if keep jobs)

-- The condition of FetchAvailable's selection.
abbrev pub is_due : Time → String → JobRow → Bool
is_due now queue row = waiting row.state && str_eq row.queue queue && not (ltb now row.scheduled_at)

-- The condition of FetchExpired's selection.
abbrev pub is_expired : Time → JobRow → Bool
is_expired now row =
    is_running row.state && elim row.leased_until [ none ↦ false | some t ↦ not (ltb now t) ]

unfoldable pub claim : Time → JobRow → JobRow
claim until row = record row {
  state = running;
  attempt = row.attempt + 1;
  leased_until = some until;
}

unfoldable pub reclaim : Time → JobRow → JobRow
reclaim until row = record row { leased_until = some until }

-- The loop over the selected rows: `n` rows have been taken, and `change` is what it does to one.
unfoldable pub take_rows :
    (JobRow → JobRow) → ℕ → ℕ → List JobRow → List JobRow → List JobRow × List JobRow
take_rows change limit n [] jobs = ([], jobs)
take_rows change limit n (row ∷ rows) jobs =
    let rest = take_rows change limit (n + 1) rows (put_row (change row) jobs) in
    if n == limit then ([], jobs) else (change row ∷ rest.0, rest.1)

unfoldable pub fetch_available : Time → String → Time → ℕ → Store → Store × List JobRow
fetch_available now queue lease_for limit s =
    let due = select_rows by_scheduled_at (is_due now queue) s.jobs in
    let taken = take_rows (claim (now + lease_for)) limit 0 due s.jobs in
    (record s { jobs = taken.1 }, taken.0)

unfoldable pub fetch_expired : Time → Time → ℕ → Store → Store × List JobRow
fetch_expired now lease_for limit s =
    let expired = select_rows by_leased_until (is_expired now) s.jobs in
    let taken = take_rows (reclaim (now + lease_for)) limit 0 expired s.jobs in
    (record s { jobs = taken.1 }, taken.0)

-- One round of ExtendLeases' loop.
unfoldable pub extend_one : Time → Lease → List JobRow → List JobRow
unfolding reclaim
extend_one until held jobs = elim (find_row held.id jobs) [
  | none ↦ jobs
  | some row ↦
      if not (is_running row.state) || not (row.attempt == held.attempt)
      then jobs
      else put_row (reclaim until row) jobs
]

unfoldable pub extend_all : Time → List Lease → List JobRow → List JobRow
extend_all until [] jobs = jobs
extend_all until (held ∷ rest) jobs = extend_all until rest (extend_one until held jobs)

unfoldable pub extend_leases : Time → List Lease → Time → Store → Store
extend_leases now leases lease_for s = record s {
  jobs = extend_all (now + lease_for) leases s.jobs;
}
