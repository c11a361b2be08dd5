-- ===== src/MemDriver/Read.antt =====
-- ListJobs, GetJob and Row of internal/memdriver/memdriver.go.
use drover.Prelude.{
  ℕ, String, Bool, not, ◌&&◌, List, Option, none, some, ltb, leb, str_eq, if◌then◌else◌, length,
  take, keep_if, sort_by, Result, ok, err, ℤ, pos, leb_ℤ,
}
use drover.Driver.{JobRow, Error, not_found, bad_limit, state_text}
use drover.MemDriver.Rows.{Store, find_row}

pub record ListJobsParams : Type 0 where
  pub queue : String
  pub state : String
  pub limit : ℤ

-- The loop body's two `continue` tests.
abbrev pub list_matches : ListJobsParams → JobRow → Bool
list_matches p row =
    not (not (str_eq p.queue "") && not (str_eq row.queue p.queue))
    && not (not (str_eq p.state "") && not (str_eq (state_text row.state) p.state))

-- Descending ids.
abbrev pub newer : JobRow → JobRow → Bool
newer a b = leb b.id a.id

-- `matched[:p.Limit]`, at a limit that is not negative.
abbrev pub cap_to : ℤ → List JobRow → List JobRow
cap_to (pos n) rows = if ltb n (length rows) then take n rows else rows
cap_to _ rows = rows

unfoldable pub list_jobs : ListJobsParams → Store → Result Error (List JobRow)
list_jobs p s =
    if leb_ℤ p.limit (pos 0)
    then err bad_limit
    else ok (cap_to p.limit (sort_by newer (keep_if (list_matches p) s.jobs)))

unfoldable pub get_job : ℕ → Store → Result Error JobRow
get_job id s = elim (find_row id s.jobs) [ none ↦ err (not_found id) | some row ↦ ok row ]

unfoldable pub row : ℕ → Store → Option JobRow
row id s = find_row id s.jobs
