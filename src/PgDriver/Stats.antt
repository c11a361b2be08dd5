-- ===== src/PgDriver/Stats.antt =====
-- Stats of pgdriver.go, which asks two queries, against memdriver.go's.
use drover.Prelude.{
  ℕ, String, List, [], ◌∷◌, map, Result, ok, err, sort_by, sort_by-perm, Perm, ◌≡◌, refl, subst,
}
use mathlib.Core.List.Perm
use drover.Driver.{Time, Error}
use drover.Stats.{QueueDepth, QueueAge, Reading, DepthKey}
use drover.MemDriver.Stats.{depth_order, age_order, queue_depth, queue_age, count_rows, oldest_rows}
use drover.MemDriver.Stats
use drover.Sql.{DbJob, Table}
use drover.Sql.Statements.{PgError}
use drover.Sql.Counts.{count_jobs, oldest_jobs}
use drover.Sql.Counts
use drover.PgDriver.{row_from_db, failed}
use drover.PgDriver.Rows.{store_of}

pub record StatsQueries (T : Type 0) : Type 0 where
  pub queue_depths : T → Result PgError (List QueueDepth)
  pub oldest_claimable : T → Result PgError (List QueueAge)

abbrev pub table_stats :
    (List QueueDepth → List QueueDepth)
    → (List QueueAge → List QueueAge)
    → Time
    → StatsQueries Table
table_stats grouping grouping' now = record {
  queue_depths = λ t. ok (Counts.queue_depths grouping t);
  oldest_claimable = λ t. ok (Counts.oldest_claimable grouping' now t);
}

abbrev reading : List QueueDepth → List QueueAge → Reading
reading depths oldest = record {
  depths = sort_by depth_order depths;
  oldest = sort_by age_order oldest;
}

-- `between` is what other sessions do between the two queries.
unfoldable pub stats : {T : Type 0} → StatsQueries T → (T → T) → T → Result Error Reading
stats q between t = elim (q.queue_depths t) [
  | err e ↦ err (failed e)
  | ok depths ↦ elim (q.oldest_claimable (between t)) [
    | err e ↦ err (failed e)
    | ok oldest ↦ ok (reading depths oldest)
  ]
]

count_jobs-count_rows :
    (jobs : List DbJob) (groups : List (DepthKey × ℕ))
    → count_jobs jobs groups ≡ count_rows (map row_from_db jobs) groups
unfolding count_jobs count_rows row_from_db
count_jobs-count_rows [] groups = refl
count_jobs-count_rows (job ∷ jobs) groups = count_jobs-count_rows jobs _

oldest_jobs-oldest_rows :
    (now : Time) (jobs : List DbJob) (groups : List (String × ℕ))
    → oldest_jobs now jobs groups ≡ oldest_rows now (map row_from_db jobs) groups
unfolding oldest_jobs oldest_rows row_from_db
oldest_jobs-oldest_rows now [] groups = refl
oldest_jobs-oldest_rows now (job ∷ jobs) groups = oldest_jobs-oldest_rows now jobs _

-- Where no other session comes between its two queries, Stats of the Postgres driver lists the depths and
-- the ages that memdriver's lists from the same rows, whatever the order of the groups.
pub stats-agree :
    (grouping : List QueueDepth → List QueueDepth) (grouping' : List QueueAge → List QueueAge)
    (now : Time) (t : Table)
    → ((depths : List QueueDepth) → Perm (grouping depths) depths)
    → ((ages : List QueueAge) → Perm (grouping' ages) ages)
    → (r : Reading) × (stats (table_stats grouping grouping' now) (λ u. u) t ≡ ok r)
      × Perm r.depths (Stats.stats now (store_of t)).depths
      × Perm r.oldest (Stats.stats now (store_of t)).oldest
unfolding stats Stats.stats Counts.queue_depths Counts.oldest_claimable store_of
stats-agree grouping grouping' now t p p' = (
  _,
  refl,
  Perm.trans (sort_by-perm depth_order _) (
      Perm.trans (p _) (
        subst
          (λ groups.
            Perm (map queue_depth (count_jobs t.rows []))
              (sort_by depth_order (map queue_depth groups)))
          (count_jobs-count_rows t.rows []) (Perm.symm (sort_by-perm depth_order _)))),
  Perm.trans (sort_by-perm age_order _) (
      Perm.trans (p' _) (
        subst
          (λ groups.
            Perm (map (queue_age now) (oldest_jobs now t.rows []))
              (sort_by age_order (map (queue_age now) groups)))
          (oldest_jobs-oldest_rows now t.rows []) (Perm.symm (sort_by-perm age_order _)))),
)
