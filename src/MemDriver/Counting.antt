-- ===== src/MemDriver/Counting.antt =====
-- What Stats of internal/memdriver/memdriver.go counts.
use drover.Prelude.{
  ℕ, ◌+◌, String, ◌&&◌, List, [], ◌∷◌, map, Option, none, some, ◌==◌, str_eq, if◌then◌else◌,
  sort_by-perm, Perm, min, ◌≡◌, refl, ap, ◌∙◌, arith, Bool-cases, inl, inr,
}
use drover.Driver.{Time, JobRow}
use drover.MemDriver.Rows.{Store}
use drover.Stats.{Reading, DepthKey, depth_key_eq}
use drover.Stats.Maps.{lookup, IsMap, lookup-assign, assign-IsMap}
use drover.Stats.Wanted.{str_eq-Decides, depth_key_eq-Decides}
use drover.MemDriver.Stats.{
  counted, or_no, bump, depth_key, count_rows, due, earlier, oldest_rows, depth_order, age_order,
  queue_depth, queue_age, stats,
}

-- How many rows are held in the state on the queue, where the state is counted.
abbrev pub depth_of : DepthKey → List JobRow → ℕ
depth_of key [] = 0
depth_of key (row ∷ rows) =
    (if counted row.state && depth_key_eq (depth_key row) key then 1 else 0) + depth_of key rows

abbrev pub if_any : ℕ → Option ℕ
if_any n = if n == 0 then none else some n

-- The earliest due time of the due rows of the queue, from what was found before.
abbrev pub due_since : Time → String → List JobRow → Option Time → Option Time
due_since now queue [] before = before
due_since now queue (row ∷ rows) before = due_since now queue rows (
    if due now row && str_eq row.queue queue
    then some (elim before [ none ↦ row.scheduled_at | some at ↦ min row.scheduled_at at ])
    else before)

or_no-if_any : (n : ℕ) → or_no (if_any n) ≡ n
or_no-if_any n = ground arith

if_any_more : (n : ℕ) → some (n + 1) ≡ if_any (n + 1)
if_any_more n = ground arith

lookup-bump :
    (key k : DepthKey) (counts : List (DepthKey × ℕ)) (n : ℕ)
    → lookup depth_key_eq key counts ≡ if_any n
    → lookup depth_key_eq key (bump k counts) ≡ if_any (n + (if depth_key_eq k key then 1 else 0))
lookup-bump key k counts n e =
    lookup-assign depth_key_eq depth_key_eq-Decides key k (or_no (lookup depth_key_eq k counts) + 1)
      counts
    ∙ elim (Bool-cases (depth_key_eq k key)) [
      | inr other ↦ rw other (e ∙ ap if_any (omega arith))
      | inl same ↦ rw same (
          ap (λ x. some (or_no (lookup depth_key_eq x counts) + 1))
            (depth_key_eq-Decides.same k key same)
          ∙ ap (λ o. some (or_no o + 1)) e
          ∙ ap (λ m. some (m + 1)) (or_no-if_any n)
          ∙ if_any_more n)
    ]

lookup-count_rows :
    (key : DepthKey) (rows : List JobRow) (counts : List (DepthKey × ℕ)) (n : ℕ)
    → lookup depth_key_eq key counts ≡ if_any n
    → lookup depth_key_eq key (count_rows rows counts) ≡ if_any (n + depth_of key rows)
unfolding count_rows
lookup-count_rows key [] counts n e = e ∙ ap if_any (omega arith)
lookup-count_rows key (row ∷ rows) counts n e = elim (Bool-cases (counted row.state)) [
  | inr off ↦ rw off (lookup-count_rows key rows counts n e ∙ ap if_any (omega arith))
  | inl on ↦ rw on (
      lookup-count_rows key rows (bump (depth_key row) counts) _
        (lookup-bump key (depth_key row) counts n e)
      ∙ ap if_any (omega arith))
]

count_rows-IsMap :
    (rows : List JobRow) (counts : List (DepthKey × ℕ))
    → IsMap depth_key_eq depth_key_eq-Decides counts
    → IsMap depth_key_eq depth_key_eq-Decides (count_rows rows counts)
unfolding count_rows
count_rows-IsMap [] counts h = h
count_rows-IsMap (row ∷ rows) counts h = elim (Bool-cases (counted row.state)) [
  | inr off ↦ rw off (count_rows-IsMap rows counts h)
  | inl on ↦ rw on (
      count_rows-IsMap rows _
        (assign-IsMap depth_key_eq depth_key_eq-Decides (depth_key row) _ counts h))
]

earlier-min :
    (at : ℕ) (before : Option ℕ)
    → earlier at before ≡ elim before [ none ↦ at | some since ↦ min at since ]
earlier-min at none = refl
earlier-min at (some since) = ground arith

lookup-oldest_rows :
    (now : Time) (queue : String) (rows : List JobRow) (oldest : List (String × ℕ))
    → lookup str_eq queue (oldest_rows now rows oldest)
      ≡ due_since now queue rows (lookup str_eq queue oldest)
unfolding oldest_rows
lookup-oldest_rows now queue [] oldest = refl
lookup-oldest_rows now queue (row ∷ rows) oldest = elim (Bool-cases (due now row)) [
  | inr off ↦ rw off (lookup-oldest_rows now queue rows oldest)
  | inl on ↦ rw on (
      lookup-oldest_rows now queue rows _
      ∙ ap (due_since now queue rows) (
          lookup-assign str_eq str_eq-Decides queue row.queue
            (earlier row.scheduled_at (lookup str_eq row.queue oldest)) oldest
          ∙ elim (Bool-cases (str_eq row.queue queue)) [
            | inr other ↦ rw other refl
            | inl same ↦ rw same (
                ap (λ x. some (earlier row.scheduled_at (lookup str_eq x oldest)))
                  (str_eq-Decides.same row.queue queue same)
                ∙ ap some (earlier-min row.scheduled_at (lookup str_eq queue oldest)))
          ]))
]

oldest_rows-IsMap :
    (now : Time) (rows : List JobRow) (oldest : List (String × ℕ))
    → IsMap str_eq str_eq-Decides oldest
    → IsMap str_eq str_eq-Decides (oldest_rows now rows oldest)
unfolding oldest_rows
oldest_rows-IsMap now [] oldest h = h
oldest_rows-IsMap now (row ∷ rows) oldest h = elim (Bool-cases (due now row)) [
  | inr off ↦ rw off (oldest_rows-IsMap now rows oldest h)
  | inl on ↦
      rw on (oldest_rows-IsMap now rows _ (assign-IsMap str_eq str_eq-Decides row.queue _ oldest h))
]

-- A reading lists, in some order, the entries of two maps: the numbers of counted jobs, and the
-- earliest due times of the jobs that can be claimed.
abbrev pub Counts : Time → Store → Reading → Type 0
Counts now s r =
    (counts : List (DepthKey × ℕ)) × (oldest : List (String × ℕ)) × Perm r.depths
      (map queue_depth counts)
    × IsMap depth_key_eq depth_key_eq-Decides counts
    × ((key : DepthKey) → lookup depth_key_eq key counts ≡ if_any (depth_of key s.jobs))
    × Perm r.oldest (map (queue_age now) oldest)
    × IsMap str_eq str_eq-Decides oldest
    × ((queue : String) → lookup str_eq queue oldest ≡ due_since now queue s.jobs none)

-- Stats lists, in some order, one depth for each queue and state that hold a counted job, with their
-- number, and one age for each queue with a job that can be claimed now, measured from the earliest due
-- time among those jobs.
pub stats-Counts : (now : Time) (s : Store) → Counts now s (stats now s)
unfolding stats lookup
stats-Counts now s = (
  count_rows s.jobs [],
  oldest_rows now s.jobs [],
  sort_by-perm depth_order _,
  count_rows-IsMap s.jobs [] tt,
  λ key. lookup-count_rows key s.jobs [] 0 refl ∙ ap if_any (omega arith),
  sort_by-perm age_order _,
  oldest_rows-IsMap now s.jobs [] tt,
  λ queue. lookup-oldest_rows now queue s.jobs [],
)
