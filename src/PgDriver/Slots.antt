-- ===== src/PgDriver/Slots.antt =====
-- The unique index of drover_jobs against memdriver.go's check, and the row that an insert stores.
use drover.Prelude.{
  ℕ, ◌≡◌, refl, ◌∙◌, ◌≤◌, ◌<◌, ◌+◌, Bool, true, false, List, [], ◌∷◌, map, none, some, arith,
  Bool-cases, Option-cases, inl, inr, ◌||◌, All, All-map, ◌==◌, str_eq, eq_iff, String,
}
use drover.Driver.{Time, InsertParams}
use drover.MemDriver.Insert.{job_from_params, active_conflict, extra_conflict, unique_conflict}
use drover.Sql.{DbJob, Table}
use drover.Sql.Statements.{slot_taken}
use drover.Sql.Inserts.{inserted}
use drover.PgDriver.{row_from_db, insert_params}
use drover.PgDriver.Rows.{store_of}

-- The identity column has given out every stored id.
abbrev pub IdsGiven : Table → Type 0
IdsGiven t = All (λ job. job.id ≤ t.next_id) t.rows

slot_taken-unkeyed :
    (job : DbJob) (rows : List DbJob) → job.unique_key ≡ none → slot_taken job rows ≡ false
unfolding slot_taken
slot_taken-unkeyed job [] e = refl
slot_taken-unkeyed job (other ∷ rows) e = rw (e, slot_taken-unkeyed job rows e) refl

differs : (a b : String) → str_eq a b ≡ false → str_eq b a ≡ false
differs a b h = elim (Bool-cases (str_eq b a)) [
  | inl e ↦ absurd (ground (arith, eq_iff a b, eq_iff b a))
  | inr e ↦ e
]

slot_taken-active_conflict :
    (job : DbJob) (key : String) (rows : List DbJob)
    → job.unique_key ≡ some key
    → str_eq key "" ≡ false
    → All (λ r. r.id < job.id) rows
    → slot_taken job rows ≡ active_conflict job.queue job.kind key (map row_from_db rows)
unfolding slot_taken active_conflict row_from_db
slot_taken-active_conflict job key [] e k h = refl
slot_taken-active_conflict job key (other ∷ rows) e k h =
    let fresh : (other.id == job.id) ≡ false = ground arith in
    elim (Option-cases other.unique_key) [
      | inl n ↦ rw (e, n, differs key "" k, slot_taken-active_conflict job key rows e k h.1) refl
      | inr (key', n) ↦ rw (e, n, fresh, slot_taken-active_conflict job key rows e k h.1) refl
    ]

pub row_from_db-inserted :
    (now : Time) (id : ℕ) (p : InsertParams)
    → row_from_db (inserted now id (insert_params p)) ≡ job_from_params id p now
unfolding row_from_db inserted insert_params job_from_params
row_from_db-inserted now id p = elim (Bool-cases (p.scheduled_at == 0)) [
  | inl e ↦ elim (Bool-cases (str_eq p.unique_key "")) [
    | inl k ↦ let key : p.unique_key ≡ "" = (eq_iff p.unique_key "").0 k in rw (e, k) (rw key refl)
    | inr k ↦ rw (e, k) refl
  ]
  | inr e ↦ elim (Bool-cases (str_eq p.unique_key "")) [
    | inl k ↦ let key : p.unique_key ≡ "" = (eq_iff p.unique_key "").0 k in rw (e, k) (rw key refl)
    | inr k ↦ rw (e, k) refl
  ]
]

or_false : (b : Bool) → b ≡ (b || false)
or_false true = refl
or_false false = refl

pub slot_taken-unique_conflict :
    (now : Time) (p : InsertParams) (t : Table)
    → IdsGiven t
    → slot_taken (inserted now (t.next_id + 1) (insert_params p)) t.rows
      ≡ unique_conflict (store_of t) p []
unfolding unique_conflict extra_conflict store_of inserted insert_params
slot_taken-unique_conflict now p t h =
    let job = inserted now (t.next_id + 1) (insert_params p) in
    elim (Bool-cases (str_eq p.unique_key "")) [
      | inl k ↦
          let unkeyed : job.unique_key ≡ none = rw k refl in
          slot_taken-unkeyed job t.rows unkeyed ∙ rw k refl
      | inr k ↦
          let keyed : job.unique_key ≡ some p.unique_key = rw k refl in
          slot_taken-active_conflict job p.unique_key t.rows keyed k
            (All-map (λ r. r.id ≤ t.next_id) (λ r g. omega arith) t.rows h)
          ∙ rw k (or_false _)
    ]
