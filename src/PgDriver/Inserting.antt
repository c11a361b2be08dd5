-- ===== src/PgDriver/Inserting.antt =====
-- The inserts of pgdriver.go against those of memdriver.go.
use drover.Prelude.{
  ℕ, ◌≡◌, refl, ap, sym, ◌∙◌, ◌≤◌, ◌+◌, Bool, false, List, [], ◌∷◌, map, arith, Bool-cases, inl,
  inr, ◌⊎◌, Result, ok, err, All, All-map, length, ◌==◌, if◌then◌else◌,
}
use drover.Driver.{Time, InsertParams, JobRow, Error, duplicate_job}
use drover.MemDriver.Rows.{Store, put_row}
use drover.MemDriver.Insert.{
  job_from_params, active_conflict, extra_conflict, unique_conflict, unique_active,
}
use drover.MemDriver.Insert
use drover.MemDriver.Batch.{insert_each, insert_many-insert_each}
use drover.Sql.{DbJob, Table, put_job}
use drover.Sql.Statements.{PgError, unique_active_violation, slot_taken}
use drover.Sql.Inserts.{
  InsertJobParams, inserted, insert_job, insert_rows, insert_jobs_from_staging,
}
use drover.PgDriver.{Wire, sent_params, table_queries, row_from_db, insert_params, wrap_insert_err}
use drover.PgDriver.Rows.{store_of, map-put_job, All-put_job}
use drover.PgDriver.Slots.{IdsGiven, row_from_db-inserted, slot_taken-unique_conflict}
use drover.PgDriver.Calls.{insert_staged}
use drover.PgDriver.Calls

-- The table after a refused insert.
abbrev burn : Table → Table
burn t = record t { next_id = t.next_id + 1 }

abbrev as_store : ℕ → List JobRow → Store
as_store next_id jobs = record { next_id = next_id; jobs = jobs }

-- One insert of the table and of memdriver, from the same rows: both refuse the slot, or both store the
-- same row.
abbrev SameStep : Time → InsertParams → Table → Type 0
SameStep now p t =
    ((insert_job now (insert_params p) t ≡ (burn t, err unique_active_violation))
      × (Insert.insert now p (store_of t) ≡ (store_of t, err duplicate_job)))
    ⊎ ((t' : Table) × (job : DbJob) × (insert_job now (insert_params p) t ≡ (t', ok job))
        × (Insert.insert now p (store_of t) ≡ (store_of t', ok (row_from_db job)))
        × (t'.next_id ≡ t.next_id + 1)
        × IdsGiven t')

insert_job-insert : (now : Time) (p : InsertParams) (t : Table) → IdsGiven t → SameStep now p t
unfolding insert_job Insert.insert store_of
insert_job-insert now p t h =
    let same = slot_taken-unique_conflict now p t h in
    elim (Bool-cases (slot_taken (inserted now (t.next_id + 1) (insert_params p)) t.rows)) [
      | inl e ↦ inl (rw e refl, rw (sym same ∙ e) refl)
      | inr e ↦ inr (
        record {
          next_id = t.next_id + 1;
          rows = put_job (inserted now (t.next_id + 1) (insert_params p)) t.rows;
        },
        inserted now (t.next_id + 1) (insert_params p),
        rw e refl,
        rw (sym same ∙ e) (
            ap
              (λ (r : JobRow).
                (as_store (t.next_id + 1) (put_row r (map row_from_db t.rows)), ok r))
              (sym (row_from_db-inserted now (t.next_id + 1) p))
            ∙ ap
                (λ (rows : List JobRow). (
                  as_store (t.next_id + 1) rows,
                  ok (row_from_db (inserted now (t.next_id + 1) (insert_params p))),
                ))
                (sym (map-put_job (inserted now (t.next_id + 1) (insert_params p)) t.rows))),
        refl,
        All-put_job (λ r. r.id ≤ t.next_id + 1) _ t.rows (unfold inserted in omega arith)
            (All-map (λ r. r.id ≤ t.next_id) (λ r g. omega arith) t.rows h),
      )
    ]

abbrev with_job : DbJob → Table × Result PgError (List DbJob) → Table × Result PgError (List DbJob)
with_job job out = elim out.1 [ err e ↦ (out.0, err e) | ok jobs ↦ (out.0, ok (job ∷ jobs)) ]

abbrev with_row : JobRow → Store × Result Error (List JobRow) → Store × Result Error (List JobRow)
with_row row out = (out.0, elim out.1 [ err e ↦ err e | ok rows ↦ ok (row ∷ rows) ])

insert_rows-stored :
    (now : Time) (p : InsertJobParams) (ps : List InsertJobParams) (t t' : Table) (job : DbJob)
    → insert_job now p t ≡ (t', ok job)
    → insert_rows now (p ∷ ps) t ≡ with_job job (insert_rows now ps t')
unfolding insert_rows
insert_rows-stored now p ps t t' job e =
    rw (e, insert_rows) (ap (λ out. with_job job (insert_rows now ps out.0)) e)

insert_each-stored :
    (now : Time) (p : InsertParams) (ps : List InsertParams) (s s' : Store) (row : JobRow)
    → Insert.insert now p s ≡ (s', ok row)
    → insert_each now (p ∷ ps) s ≡ with_row row (insert_each now ps s')
unfolding insert_each
insert_each-stored now p ps s s' row e =
    rw (e, insert_each) (ap (λ out. with_row row (insert_each now ps out.0)) e)

-- A batch of the table, row by row, and of memdriver, item by item.
abbrev SameRows : Time → List InsertParams → Table → Type 0
SameRows now ps t =
    ((t' : Table) × (insert_rows now (map insert_params ps) t ≡ (t', err unique_active_violation))
      × ((insert_each now ps (store_of t)).1 ≡ err duplicate_job)
      × (t.next_id ≤ t'.next_id))
    ⊎ ((t' : Table) × (jobs : List DbJob) × (insert_rows now (map insert_params ps) t
          ≡ (t', ok jobs))
        × (insert_each now ps (store_of t) ≡ (store_of t', ok (map row_from_db jobs))))

insert_rows-insert_each :
    (now : Time) (ps : List InsertParams) (t : Table) → IdsGiven t → SameRows now ps t
insert_rows-insert_each now [] t h =
    inr (t, [], unfold insert_rows in refl, unfold insert_each in refl)
insert_rows-insert_each now (p ∷ ps) t h = elim (insert_job-insert now p t h) [
  | inl (e, e') ↦ inl (
    burn t,
    unfold insert_rows in rw (e, insert_rows) (ap (λ out. (out.0, err unique_active_violation)) e),
    unfold insert_each in rw (e', insert_each) refl,
    omega arith,
  )
  | inr (t', job, e, e', n, given) ↦
      let rows_step = insert_rows-stored now (insert_params p) (map insert_params ps) t t' job e in
      let each_step = insert_each-stored now p ps (store_of t) (store_of t') (row_from_db job) e' in
      elim (insert_rows-insert_each now ps t' given) [
        | inl (t'', f, f', m) ↦ inl (
          t'',
          rows_step ∙ ap (with_job job) f,
          ap (λ out. out.1) each_step ∙ rw f' refl,
          omega arith,
        )
        | inr (t'', jobs, f, f') ↦ inr (
          t'',
          job ∷ jobs,
          rows_step ∙ ap (with_job job) f,
          each_step ∙ ap (with_row (row_from_db job)) f',
        )
      ]
]

-- An insert of the Postgres driver did what memdriver's did: the same result and, if it is a refusal,
-- rows that stay; the ids that the identity column gave out before the refusal are lost.
abbrev pub InsertsAs : {A : Type 0} → Table × Result Error A → Store × Result Error A → Type 0
InsertsAs out (s, ok a) = (out.1 ≡ ok a) × (store_of out.0 ≡ s)
InsertsAs out (s, err e) =
    (out.1 ≡ err e) × ((store_of out.0).jobs ≡ s.jobs) × (s.next_id ≤ out.0.next_id)

-- The params as they arrive: the args as jsonb shows them, and the instant, if one is set, as a timestamptz keeps it.
abbrev pub arriving : Wire → InsertParams → InsertParams
arriving wire p = record p {
  args = wire.jsonb p.args;
  scheduled_at = if p.scheduled_at == 0 then 0 else wire.timestamptz p.scheduled_at;
}

-- An instant that is set does not arrive as the zero time.
abbrev pub StaysSet : Wire → InsertParams → Type 0
StaysSet wire p = (p.scheduled_at == 0) ≡ false → (wire.timestamptz p.scheduled_at == 0) ≡ false

sent-arriving :
    (wire : Wire) (p : InsertParams)
    → StaysSet wire p
    → sent_params wire (insert_params p) ≡ insert_params (arriving wire p)
unfolding insert_params
sent-arriving wire p stays = elim (Bool-cases (p.scheduled_at == 0)) [
  | inl zero ↦ rw zero refl
  | inr set ↦ rw set (rw (stays set) refl)
]

map-sent :
    (wire : Wire) (ps : List InsertParams)
    → All (StaysSet wire) ps
    → map (sent_params wire) (map insert_params ps) ≡ map insert_params (map (arriving wire) ps)
map-sent wire [] stay = refl
map-sent wire (p ∷ ps) stay =
    ap (λ x. x ∷ map (sent_params wire) (map insert_params ps)) (sent-arriving wire p stay.0)
    ∙ ap (λ xs. insert_params (arriving wire p) ∷ xs) (map-sent wire ps stay.1)

insert-agrees :
    (wire : Wire) (now : Time) (locked : ℕ → Bool) (returning : List DbJob → List DbJob)
    (p : InsertParams) (t : Table)
    → IdsGiven t
    → StaysSet wire p
    → InsertsAs
        (Calls.insert (table_queries wire now locked returning) p t)
        (Insert.insert now (arriving wire p) (store_of t))
unfolding Calls.insert wrap_insert_err
insert-agrees wire now locked returning p t h stays =
    rw (sent-arriving wire p stays) (elim (insert_job-insert now (arriving wire p) t h) [
      | inl (e, e') ↦ rw (e, e') (refl, unfold store_of in refl, unfold store_of in omega arith)
      | inr (t', job, e, e', n, given) ↦ rw (e, e') (refl, refl)
    ])

ids_given : (t : Table) → IdsGiven t → All (λ r. r.id ≤ (store_of t).next_id) (store_of t).jobs
unfolding store_of
ids_given t h = each t.next_id t.rows h
  where
    each :
        (n : ℕ) (rows : List DbJob)
        → All (λ job. job.id ≤ n) rows
        → All (λ r. r.id ≤ n) (map row_from_db rows)
    each n [] h = tt
    each n (job ∷ rows) h = (unfold row_from_db in h.0, each n rows h.1)

abbrev with_next : Table → ℕ → Table
with_next t n = record t { next_id = n }

abbrev staged : Table → Table × Result PgError (List DbJob) → Table × Result PgError (List DbJob)
staged t out = elim out.1 [ err e ↦ (with_next t out.0.next_id, err e) | ok jobs ↦ out ]

staging_refused :
    (now : Time) (ps : List InsertJobParams) (t t' : Table) (e : PgError)
    → insert_rows now ps t ≡ (t', err e)
    → insert_jobs_from_staging now ps t ≡ (with_next t t'.next_id, err e)
unfolding insert_jobs_from_staging
staging_refused now ps t t' e h = ap (λ out. staged t out) h

staging_stored :
    (now : Time) (ps : List InsertJobParams) (t t' : Table) (jobs : List DbJob)
    → insert_rows now ps t ≡ (t', ok jobs)
    → insert_jobs_from_staging now ps t ≡ (t', ok jobs)
unfolding insert_jobs_from_staging
staging_stored now ps t t' jobs h = ap (λ out. staged t out) h

insert_many-agrees :
    (wire : Wire) (now : Time) (locked : ℕ → Bool) (returning : List DbJob → List DbJob)
    (batch : List InsertParams) (t : Table)
    → IdsGiven t
    → All (StaysSet wire) batch
    → InsertsAs
        (Calls.insert_many (table_queries wire now locked returning) batch t)
        (Insert.insert_many now (map (arriving wire) batch) (store_of t))
unfolding Calls.insert_many insert_staged wrap_insert_err
insert_many-agrees wire now locked returning [] t h stay = unfold Insert.insert_many in (refl, refl)
insert_many-agrees wire now locked returning (p ∷ ps) t h stay =
    let qs = map (arriving wire) (p ∷ ps) in
    let more : (length (p ∷ ps) == 0) ≡ false = ground arith in
    rw
      (
        more,
        map-sent wire (p ∷ ps) stay,
        insert_many-insert_each now qs (store_of t) (ids_given t h),
      )
      (elim (insert_rows-insert_each now qs t h) [
        | inl (t', e, e', m) ↦
            rw (staging_refused now _ t t' _ e, e')
              (refl, unfold store_of in refl, unfold store_of in m)
        | inr (t', jobs, e, e') ↦ rw (staging_stored now _ t t' jobs e, e') (refl, refl)
      ])

-- From ids that the identity column has given out, Insert and InsertMany of the Postgres driver return
-- what memdriver's return from the same rows for the params as they arrive, and store the same rows; a refused
-- batch stores none. No instant that is set may arrive as the zero time.
pub inserts-agree :
    (wire : Wire) (now : Time) (locked : ℕ → Bool) (returning : List DbJob → List DbJob)
    (p : InsertParams) (batch : List InsertParams) (t : Table)
    → IdsGiven t
    → StaysSet wire p
    → All (StaysSet wire) batch
    → let q = table_queries wire now locked returning in
      InsertsAs (Calls.insert q p t) (Insert.insert now (arriving wire p) (store_of t))
      × InsertsAs
          (Calls.insert_many q batch t)
          (Insert.insert_many now (map (arriving wire) batch) (store_of t))
inserts-agree wire now locked returning p batch t h stays stay = (
  insert-agrees wire now locked returning p t h stays,
  insert_many-agrees wire now locked returning batch t h stay,
)
