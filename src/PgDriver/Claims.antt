-- ===== src/PgDriver/Claims.antt =====
-- FetchAvailable, FetchExpired and ExtendLeases of pgdriver.go against those of memdriver.go, and what
-- SKIP LOCKED gives.
use drover.Prelude.{
  ℕ, ◌≡◌, refl, ap, sym, ◌∙◌, ◌≤◌, ◌+◌, Bool, true, false, List, [], ◌∷◌, map, arith, ◌==◌, leb,
  String, Result, ok, pos, ltb_ℤ, zero, suc, take, keep_if, sort_by, Perm, Pairs, TotalOrder,
  sort_by-perm, sort_by-Pairs, subst,
}
use mathlib.Core.List.Perm
use drover.Driver.{Time, JobRow, Error}
use drover.MemDriver.Rows.{Store, put_row}
use drover.MemDriver.Insert.{put_rows}
use drover.MemDriver.Claim.{
  is_running, is_due, is_expired, by_scheduled_at, by_leased_until, row_before, select_rows, claim,
  reclaim, take_rows, extend_one, extend_all,
}
use drover.MemDriver.Claim
use drover.MemDriver.Fetching.{take_rows-take}
use drover.Sql.{DbJob, Table, put_jobs}
use drover.Sql.Statements.{
  claimable, lapsed, lease_key, set_claimed, set_leased, ordered_by, claim_rows, extend_held,
}
use drover.Sql.Statements
use drover.PgDriver.{Wire, table_queries, row_from_db, max_int32, id_order, sorted_rows}
use drover.PgDriver.Rows.{store_of, map-put_jobs, map-take, map-keep_if, map-sort_by}
use drover.PgDriver.Calls

map-swap :
    {A B : Type 0} (f : A → B) (c : A → A) (d : B → B) (same : (x : A) → f (c x) ≡ d (f x))
    (xs : List A)
    → map f (map c xs) ≡ map d (map f xs)
map-swap f c d same [] = refl
map-swap f c d same (x ∷ xs) = rw (same x, map-swap f c d same xs) refl

-- memdriver's loop writes the rows that it takes, in order.
take_rows-put_rows :
    (change : JobRow → JobRow) (limit n m : ℕ) (rows jobs : List JobRow)
    → n + m ≡ limit
    → (take_rows change limit n rows jobs).1 ≡ put_rows (map change (take m rows)) jobs
unfolding take_rows put_rows
take_rows-put_rows change limit n zero [] jobs h = refl
take_rows-put_rows change limit n (suc m) [] jobs h = refl
take_rows-put_rows change limit n zero (row ∷ rows) jobs h =
    let full : (n == limit) ≡ true = ground arith in rw full refl
take_rows-put_rows change limit n (suc m) (row ∷ rows) jobs h =
    let room : (n == limit) ≡ false = ground arith in
    rw room
      (take_rows-put_rows change limit (n + 1) m rows (put_row (change row) jobs) (omega arith))

-- A claim of the table against memdriver's loop over the same selection.
module _ (set : DbJob → DbJob) (change : JobRow → JobRow)
    (same_id : (r : JobRow) → (change r).id ≡ r.id)
    (same : (job : DbJob) → row_from_db (set job) ≡ change (row_from_db job))
    (before : DbJob → DbJob → Bool) (order : JobRow → Time)
    (ordered : (a b : DbJob) → before a b ≡ row_before order (row_from_db a) (row_from_db b))
    (test : DbJob → Bool) (keep : JobRow → Bool)
    (kept : (job : DbJob) → test job ≡ keep (row_from_db job)) (n : ℕ) (jobs : List DbJob) where
  abbrev pub chosen : List DbJob
  chosen = take n (sort_by before (keep_if test jobs))

  taken_as_stored :
      map row_from_db chosen
      ≡ take n (sort_by (row_before order) (keep_if keep (map row_from_db jobs)))
  taken_as_stored =
      map-take row_from_db n (sort_by before (keep_if test jobs))
      ∙ ap (take n) (
          map-sort_by row_from_db before (row_before order) ordered (keep_if test jobs)
          ∙ ap (sort_by (row_before order)) (map-keep_if row_from_db test keep kept jobs))

  pub chosen-taken :
      map row_from_db (map set chosen)
      ≡ (take_rows change n 0
          (select_rows order keep (map row_from_db jobs))
          (map row_from_db jobs)).0
  unfolding select_rows
  chosen-taken =
      map-swap row_from_db set change same chosen
      ∙ ap (map change) taken_as_stored
      ∙ sym (take_rows-take change same_id n 0 n _ _ (omega arith))

  pub chosen-stored :
      map row_from_db (put_jobs (map set chosen) jobs)
      ≡ (take_rows change n 0
          (select_rows order keep (map row_from_db jobs))
          (map row_from_db jobs)).1
  unfolding select_rows
  chosen-stored =
      map-put_jobs (map set chosen) jobs
      ∙ ap (λ rs. put_rows rs (map row_from_db jobs))
          (map-swap row_from_db set change same chosen ∙ ap (map change) taken_as_stored)
      ∙ sym (take_rows-put_rows change n 0 n _ _ (omega arith))

claim_keeps_id : (until : Time) (r : JobRow) → (claim until r).id ≡ r.id
unfolding claim
claim_keeps_id until r = refl

reclaim_keeps_id : (until : Time) (r : JobRow) → (reclaim until r).id ≡ r.id
unfolding reclaim
reclaim_keeps_id until r = refl

claim_same :
    (until : Time) (job : DbJob)
    → row_from_db (set_claimed until job) ≡ claim until (row_from_db job)
unfolding claim row_from_db
claim_same until job = refl

reclaim_same :
    (until : Time) (job : DbJob)
    → row_from_db (set_leased until job) ≡ reclaim until (row_from_db job)
unfolding reclaim row_from_db
reclaim_same until job = refl

due_order :
    (a b : DbJob)
    → ordered_by (λ job. job.scheduled_at) a b
      ≡ row_before by_scheduled_at (row_from_db a) (row_from_db b)
unfolding ordered_by row_before by_scheduled_at row_from_db
due_order a b = refl

lapse_order :
    (a b : DbJob)
    → ordered_by lease_key a b ≡ row_before by_leased_until (row_from_db a) (row_from_db b)
unfolding ordered_by row_before by_leased_until row_from_db
lapse_order a b = refl

due_same :
    (now : Time) (queue : String) (job : DbJob)
    → claimable now queue (λ id. false) job ≡ is_due now queue (row_from_db job)
unfolding row_from_db
due_same now queue job = refl

lapsed_same :
    (now : Time) (job : DbJob) → lapsed now (λ id. false) job ≡ is_expired now (row_from_db job)
unfolding row_from_db
lapsed_same now job = refl

abbrev stored_as : ℕ → List JobRow → Store
stored_as next_id jobs = record { next_id = next_id; jobs = jobs }

id_order-TotalOrder : TotalOrder JobRow id_order
id_order-TotalOrder = record { trans = λ x y z p q. ground arith; total = λ x y p. ground arith }

-- A claim of the Postgres driver did what memdriver's did: its table reads as that store, and it handed
-- out the same rows, in ascending order of id.
abbrev pub ClaimsAs : Table × Result Error (List JobRow) → Store × List JobRow → Type 0
ClaimsAs out claimed =
    (store_of out.0 ≡ claimed.0)
    × (rows : List JobRow) × (out.1 ≡ ok rows)
    × Perm rows claimed.1
    × Pairs (λ a b. leb a.id b.id ≡ true) rows

sorted_rows-claimed :
    (returning : List DbJob → List DbJob) (changed : List DbJob) (rows : List JobRow)
    → Perm (returning changed) changed
    → map row_from_db changed ≡ rows
    → Perm (sorted_rows (returning changed)) rows
      × Pairs (λ a b. leb a.id b.id ≡ true) (sorted_rows (returning changed))
unfolding sorted_rows
sorted_rows-claimed returning changed rows p e = (
  Perm.trans (sort_by-perm id_order _) (subst (Perm _) e (Perm.map row_from_db p)),
  sort_by-Pairs id_order id_order-TotalOrder _,
)

-- Where no other transaction holds a row and RETURNING lists each changed row once, a claim of the
-- Postgres driver at a limit that an int32 holds stores what memdriver's claim stores from the same rows, for
-- a lease as long as the interval that Postgres makes of the duration, and hands out the same jobs, in
-- ascending order of id: FetchAvailable and FetchExpired alike.
pub claims-agree :
    (wire : Wire) (now : Time) (returning : List DbJob → List DbJob) (queue : String)
    (lease_for : Time) (limit : ℕ) (t : Table)
    → ((rows : List DbJob) → Perm (returning rows) rows)
    → limit ≤ max_int32
    → let q = table_queries wire now (λ id. false) returning in
      ClaimsAs
        (Calls.fetch_available q queue lease_for (pos limit) t)
        (Claim.fetch_available now queue (wire.interval lease_for) limit (store_of t))
      × ClaimsAs
          (Calls.fetch_expired q lease_for (pos limit) t)
          (Claim.fetch_expired now (wire.interval lease_for) limit (store_of t))
unfolding Calls.fetch_available Calls.fetch_expired Claim.fetch_available Claim.fetch_expired
    Statements.fetch_available Statements.fetch_expired claim_rows store_of
claims-agree wire now returning queue lease_for limit t permutes fits =
    let low : ltb_ℤ (pos limit) (pos 0) ≡ false = ground arith in
    let high : ltb_ℤ (pos max_int32) (pos limit) ≡ false = ground arith in
    let until = now + wire.interval lease_for in
    let taken =
      chosen-taken (set_claimed until) (claim until) (claim_keeps_id until) (claim_same until)
        (ordered_by (λ job. job.scheduled_at)) by_scheduled_at due_order
        (claimable now queue (λ id. false)) (is_due now queue) (due_same now queue) limit t.rows in
    let retaken =
      chosen-taken (set_leased until) (reclaim until) (reclaim_keeps_id until) (reclaim_same until)
        (ordered_by lease_key) by_leased_until lapse_order (lapsed now (λ id. false))
        (is_expired now) (lapsed_same now) limit t.rows in
    let stored =
      chosen-stored (set_claimed until) (claim until) (claim_keeps_id until) (claim_same until)
        (ordered_by (λ job. job.scheduled_at)) by_scheduled_at due_order
        (claimable now queue (λ id. false)) (is_due now queue) (due_same now queue) limit t.rows in
    let restored =
      chosen-stored (set_leased until) (reclaim until) (reclaim_keeps_id until) (reclaim_same until)
        (ordered_by lease_key) by_leased_until lapse_order (lapsed now (λ id. false))
        (is_expired now) (lapsed_same now) limit t.rows in
    let sorted = sorted_rows-claimed returning _ _ (permutes _) taken in
    let resorted = sorted_rows-claimed returning _ _ (permutes _) retaken in
    rw (low, high)
      (
        (ap (λ (jobs : List JobRow). stored_as t.next_id jobs) stored, _, refl, sorted.0, sorted.1),
        (
          ap (λ (jobs : List JobRow). stored_as t.next_id jobs) restored,
          _,
          refl,
          resorted.0,
          resorted.1,
        ),
      )
