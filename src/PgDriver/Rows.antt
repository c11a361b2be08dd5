-- ===== src/PgDriver/Rows.antt =====
-- The rows of drover_jobs as the rows that memdriver.go stores: rowFromDB over a whole table.
use drover.Prelude.{
  ℕ, ◌≡◌, refl, ap, Bool, List, [], ◌∷◌, map, ◌==◌, Bool-cases, inl, inr, take, zero, suc, keep_if,
  sort_by, insert_by, All, ◌∙◌, sym,
}
use mathlib.Core.Option
use drover.MemDriver.Rows.{Store, find_row, put_row}
use drover.Sql.{DbJob, Table, find_job, put_job, put_jobs}
use drover.MemDriver.Insert.{put_rows}
use drover.PgDriver.{row_from_db}

-- What a table holds, as memdriver would store it.
unfoldable pub store_of : Table → Store
unfolding row_from_db
store_of t = record { next_id = t.next_id; jobs = map row_from_db t.rows }

pub find_row-find_job :
    (id : ℕ) (rows : List DbJob)
    → find_row id (map row_from_db rows) ≡ Option.map row_from_db (find_job id rows)
unfolding find_row find_job row_from_db
find_row-find_job id [] = refl
find_row-find_job id (job ∷ rows) = elim (Bool-cases (job.id == id)) [
  | inl e ↦ rw e refl
  | inr e ↦ rw e (find_row-find_job id rows)
]

pub map-put_job :
    (r : DbJob) (rows : List DbJob)
    → map row_from_db (put_job r rows) ≡ put_row (row_from_db r) (map row_from_db rows)
unfolding put_row put_job row_from_db
map-put_job r [] = refl
map-put_job r (job ∷ rows) = elim (Bool-cases (job.id == r.id)) [
  | inl e ↦ rw e refl
  | inr e ↦ rw e (ap (◌∷◌ (row_from_db job)) (map-put_job r rows))
]

pub map-put_jobs :
    (rs rows : List DbJob)
    → map row_from_db (put_jobs rs rows) ≡ put_rows (map row_from_db rs) (map row_from_db rows)
unfolding put_jobs put_rows
map-put_jobs [] rows = refl
map-put_jobs (r ∷ rs) rows =
    map-put_jobs rs (put_job r rows) ∙ ap (put_rows (map row_from_db rs)) (map-put_job r rows)

-- The list functions of a selection commute with a conversion that keeps their tests.
module _ {A B : Type 0} (f : A → B) where
  pub map-take : (n : ℕ) (xs : List A) → map f (take n xs) ≡ take n (map f xs)
  map-take zero xs = refl
  map-take (suc n) [] = refl
  map-take (suc n) (x ∷ xs) = ap (◌∷◌ (f x)) (map-take n xs)

  pub map-keep_if :
      (p : A → Bool) (q : B → Bool) (same : (x : A) → p x ≡ q (f x)) (xs : List A)
      → map f (keep_if p xs) ≡ keep_if q (map f xs)
  map-keep_if p q same [] = refl
  map-keep_if p q same (x ∷ xs) = elim (Bool-cases (p x)) [
    | inl e ↦ rw (e, sym (same x) ∙ e) (ap (◌∷◌ (f x)) (map-keep_if p q same xs))
    | inr e ↦ rw (e, sym (same x) ∙ e) (map-keep_if p q same xs)
  ]

  pub map-insert_by :
      (p : A → A → Bool) (q : B → B → Bool) (same : (x y : A) → p x y ≡ q (f x) (f y)) (x : A)
      (xs : List A)
      → map f (insert_by p x xs) ≡ insert_by q (f x) (map f xs)
  unfolding insert_by
  map-insert_by p q same x [] = refl
  map-insert_by p q same x (y ∷ xs) = elim (Bool-cases (p x y)) [
    | inl e ↦ rw (e, sym (same x y) ∙ e) refl
    | inr e ↦ rw (e, sym (same x y) ∙ e) (ap (◌∷◌ (f y)) (map-insert_by p q same x xs))
  ]

  pub map-sort_by :
      (p : A → A → Bool) (q : B → B → Bool) (same : (x y : A) → p x y ≡ q (f x) (f y)) (xs : List A)
      → map f (sort_by p xs) ≡ sort_by q (map f xs)
  unfolding sort_by
  map-sort_by p q same [] = refl
  map-sort_by p q same (x ∷ xs) =
      map-insert_by p q same x (sort_by p xs) ∙ ap (insert_by q (f x)) (map-sort_by p q same xs)

pub All-put_job {κ} :
    (P : DbJob → Type κ) (r : DbJob) (rows : List DbJob) → P r → All P rows → All P (put_job r rows)
unfolding put_job
All-put_job P r [] p h = (p, tt)
All-put_job P r (job ∷ rows) p h = elim (Bool-cases (job.id == r.id)) [
  | inl e ↦ rw e (p, h.1)
  | inr e ↦ rw e (h.0, All-put_job P r rows p h.1)
]
