-- ===== src/PgDriver/Tests.antt =====
-- Runs of the Postgres driver's calls on small tables, and the theorems at concrete inputs.
use drover.Prelude.{
  true, Bool-cases, inl, inr, ℕ, ◌+◌, ◌-◌, ◌%◌, ◌≡◌, refl, Bool, false, List, [], ◌∷◌, ◌++◌, Option,
  none, some, arith, ◌==◌, ok, err, pos, String,
}
use mathlib.Core.List.Perm
use drover.Driver.{
  Time, Bytes, JobState, available, running, retryable, dead, Lease, InsertParams, empty_array,
  lease_lost,
}
use drover.MemDriver.Claim
use drover.MemDriver.Mark
use drover.MemDriver.Insert
use drover.MemDriver.Sample.{read, write}
use drover.Sql.{DbJob, Table, find_job}
use drover.PgDriver.{Wire, table_queries}
use drover.PgDriver.Rows.{store_of}
use drover.PgDriver.Claims.{ClaimsAs, claims-agree}
use drover.PgDriver.Inserting.{InsertsAs, arriving, inserts-agree}
use drover.PgDriver.Operators.{CancelAgrees, RedriveAgrees, operators-agree}
use drover.PgDriver.Leader.{Cluster, Faults, try_become_leader, acquire_lock}
use drover.PgDriver.Leadership.{tries, Reached, begun, moved, start, Reached-Leads}
use drover.PgDriver.Calls
use drover.Sql.Statements
use drover.Sql.Reads

abbrev append : Bytes → Bytes → Bytes
append column detail = elim (read column) [ none ↦ [] | some items ↦ write (items ++ detail ∷ []) ]

-- Instants and durations are kept to ten units, and jsonb shows a text as it is.
abbrev coarse : ℕ → ℕ
coarse n = n - n % 10

abbrev wire : Wire
wire = record { append = append; jsonb = λ text. text; timestamptz = coarse; interval = coarse }

abbrev db_job : ℕ → JobState → ℕ → Option Time → Option String → DbJob
db_job id state attempt lease key = record {
  id = id;
  kind = "mail";
  queue = "default";
  args = [];
  state = state;
  attempt = attempt;
  max_attempts = 25;
  errors = empty_array;
  scheduled_at = 10 + id;
  leased_until = lease;
  created_at = 5;
  finalized_at = none;
  unique_key = key;
}

-- A running job, a waiting one in a unique slot, a dead one that left that slot, and a retryable one.
abbrev rows : Table
rows = record {
  next_id = 4;
  rows =
      db_job 1 running 1 (some 60) none
      ∷ db_job 2 available 0 none (some "k")
      ∷ db_job 3 dead 25 none (some "k")
      ∷ db_job 4 retryable 2 none none
      ∷ [];
}

abbrev held : Lease
held = record { id = 1; attempt = 1 }

abbrev in_order : List DbJob → List DbJob
in_order jobs = jobs

abbrev nobody : ℕ → Bool
nobody id = false

-- A lease of an earlier attempt is refused with both attempts.
lost :
    (Calls.mark_completed
      (table_queries wire 50 nobody in_order)
      (λ u. u)
      (record { id = 1; attempt = 3 })
      rows).1
    ≡ err (lease_lost 1 1 3)
unfolding Calls.mark_completed Statements.mark_completed find_job Reads.get_job
lost = refl

claims-agree_example :
    let q = table_queries wire 50 nobody in_order in
    ClaimsAs
      (Calls.fetch_available q "default" 30 (pos 2) rows)
      (Claim.fetch_available 50 "default" 30 2 (store_of rows))
    × ClaimsAs (Calls.fetch_expired q 30 (pos 2) rows) (Claim.fetch_expired 50 30 2 (store_of rows))
claims-agree_example =
    claims-agree wire 50 in_order "default" 30 2 rows (λ jobs. Perm.refl jobs) (omega arith)

abbrev keyed : InsertParams
keyed = record { kind = "mail"; queue = "default"; args = []; scheduled_at = 0; unique_key = "k" }

abbrev unkeyed : InsertParams
unkeyed = record { kind = "mail"; queue = "default"; args = []; scheduled_at = 95; unique_key = "" }

inserts-agree_example :
    let q = table_queries wire 50 nobody in_order in
    InsertsAs (Calls.insert q keyed rows) (Insert.insert 50 (arriving wire keyed) (store_of rows))
    × InsertsAs
        (Calls.insert_many q (unkeyed ∷ unkeyed ∷ []) rows)
        (Insert.insert_many 50 (arriving wire unkeyed ∷ arriving wire unkeyed ∷ []) (store_of rows))
inserts-agree_example =
    inserts-agree wire 50 nobody in_order keyed (unkeyed ∷ unkeyed ∷ []) rows
      (omega arith, (omega arith, (omega arith, (omega arith, tt)))) (λ e. cc)
      ((λ e. refl), ((λ e. refl), tt))

operators-agree_example :
    CancelAgrees wire 50 nobody in_order (λ u. u) (λ u. u) (λ s. s) (λ s. s) 3 rows
    × RedriveAgrees wire 50 nobody in_order (λ u. u) (λ u. u) (λ s. s) (λ s. s) 3 rows
operators-agree_example =
    operators-agree wire 50 nobody in_order (λ u. u) (λ u. u) (λ s. s) (λ s. s) 3 rows
      (db_job 3 dead 25 none (some "k")) (λ u. refl) (λ u. refl) (unfold find_job in refl)

abbrev calm : Faults
calm = record { ping_fails = false; acquire_fails = false; query_fails = false; ctx_done = false }

abbrev led : Cluster
led = (try_become_leader calm true 3 8 start).0

-- A second driver asks while the first one leads.
abbrev contested : Cluster
contested = (try_become_leader calm true 4 9 led).0

second_refused : (try_become_leader calm true 4 9 led).1 ≡ ok false
unfolding try_become_leader acquire_lock
second_refused = refl

led-Reached : Reached contested
unfolding try_become_leader acquire_lock
led-Reached =
    moved
      (moved begun (
        tries calm true 3 8
          (record { alive = refl; kept = refl; unused = λ d e. absurd (ground arith) })
          (λ conn p e. refl)))
      (tries calm true 4 9
        (record {
          alive = refl;
          kept = refl;
          unused = λ d e. elim (Bool-cases (d == 3)) [
            | inl same ↦ absurd (ground arith)
            | inr other ↦ absurd (ground arith)
          ];
        })
        (λ conn p e. refl))

abbrev first_driver : ℕ
first_driver = 3

Reached-Leads_example : first_driver ≡ first_driver
unfolding try_become_leader acquire_lock
Reached-Leads_example =
    Reached-Leads contested first_driver first_driver led-Reached (8, refl, refl) (8, refl, refl)
