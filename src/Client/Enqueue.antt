-- ===== src/Client/Enqueue.antt =====
-- Insert, InsertMany and their parameters. The args are of a type of the caller's, with its Kind method
-- and json.Marshal at it as the parameters `kind` and `marshal`.
use drover.Prelude.{
  ℕ, suc, String, Bool, true, List, [], ◌∷◌, map, Option, none, some, str_eq, if◌then◌else◌, Result,
  ok, err,
}
use drover.Driver.{Time, Bytes, InsertParams, JobRow, Error, duplicate_job}
use drover.Queues.{default_queue}

pub record InsertOpts : Type 0 where
  pub queue : String
  pub scheduled_at : Time
  pub unique_key : String

pub record InsertItem (A : Type 0) : Type 0 where
  pub args : Option A
  pub opts : Option InsertOpts

-- The public sentinels, and a store's error that is passed on.
pub data ClientError : Type 0 where
  err_invalid_kind : ClientError
  err_duplicate_job : ClientError
  marshal_args : String → ClientError
  item : ℕ → ClientError → ClientError
  store_error : Error → ClientError

unfoldable pub public_insert_err : Error → ClientError
public_insert_err duplicate_job = err_duplicate_job
public_insert_err e = store_error e

abbrev pub default_params : String → Bytes → InsertParams
default_params kind encoded = record {
  kind = kind;
  queue = default_queue;
  args = encoded;
  scheduled_at = 0;
  unique_key = "";
}

-- The `if opts != nil` block.
abbrev pub with_opts : Option InsertOpts → InsertParams → InsertParams
with_opts none p = p
with_opts (some o) p = record p {
  queue = if str_eq o.queue "" then p.queue else o.queue;
  scheduled_at = o.scheduled_at;
  unique_key = o.unique_key;
}

-- The public row has the fields of the stored one.
unfoldable pub row_from_driver : JobRow → JobRow
row_from_driver row = record {
  id = row.id;
  kind = row.kind;
  queue = row.queue;
  args = row.args;
  state = row.state;
  attempt = row.attempt;
  max_attempts = row.max_attempts;
  errors = row.errors;
  scheduled_at = row.scheduled_at;
  leased_until = row.leased_until;
  created_at = row.created_at;
  finalized_at = row.finalized_at;
  unique_key = row.unique_key;
}

unfoldable pub rows_from_driver : List JobRow → List JobRow
rows_from_driver rows = map row_from_driver rows

-- wakeAfterInsert: whether a token is in the wake channel, which has room for one. A driver with a
-- notifier is told as well, which changes nothing here.
unfoldable pub wake_after_insert : Bool → Bool → Bool
wake_after_insert notify_wakeup wake = if notify_wakeup then true else wake

module _ {A : Type 0} (kind : A → String) (marshal : A → Option Bytes) where
  unfoldable pub insert_params_for : Option A → Option InsertOpts → Result ClientError InsertParams
  insert_params_for none opts = err err_invalid_kind
  insert_params_for (some args) opts =
      if str_eq (kind args) "" then err err_invalid_kind else elim (marshal args) [
        | none ↦ err (marshal_args (kind args))
        | some encoded ↦ ok (with_opts opts (default_params (kind args) encoded))
      ]

  -- The loop of insertParamsForMany from index `i`.
  unfoldable pub insert_params_from :
      ℕ → List (InsertItem A) → Result ClientError (List InsertParams)
  unfolding insert_params_for
  insert_params_from i [] = ok []
  insert_params_from i (x ∷ xs) = elim (insert_params_for x.args x.opts) [
    | err e ↦ err (item i e)
    | ok params ↦ elim (insert_params_from (suc i) xs) [
      | err e ↦ err e
      | ok batch ↦ ok (params ∷ batch)
    ]
  ]

  unfoldable pub insert_params_for_many :
      List (InsertItem A) → Result ClientError (List InsertParams)
  unfolding insert_params_from
  insert_params_for_many items = insert_params_from 0 items

  module _ {S : Type 0} (notify_wakeup : Bool) where
    unfoldable pub client_insert :
        (InsertParams → S → S × Result Error JobRow)
        → Option A
        → Option InsertOpts
        → S × Bool
        → (S × Bool) × Result ClientError JobRow
    unfolding public_insert_err row_from_driver wake_after_insert
    client_insert store args opts (s, wake) = elim (insert_params_for args opts) [
      | err e ↦ ((s, wake), err e)
      | ok params ↦
          let out = store params s in
          elim out.1 [
            | err e ↦ ((out.0, wake), err (public_insert_err e))
            | ok row ↦ ((out.0, wake_after_insert notify_wakeup wake), ok (row_from_driver row))
          ]
    ]

    -- The call's last part, on a batch that is not empty.
    unfoldable pub store_batch :
        (List InsertParams → S → S × Result Error (List JobRow))
        → List InsertParams
        → S × Bool
        → (S × Bool) × Result ClientError (List JobRow)
    unfolding public_insert_err rows_from_driver wake_after_insert
    store_batch store batch (s, wake) =
        let out = store batch s in
        elim out.1 [
          | err e ↦ ((out.0, wake), err (public_insert_err e))
          | ok rows ↦ ((out.0, wake_after_insert notify_wakeup wake), ok (rows_from_driver rows))
        ]

    unfoldable pub client_insert_many :
        (List InsertParams → S → S × Result Error (List JobRow))
        → List (InsertItem A)
        → S × Bool
        → (S × Bool) × Result ClientError (List JobRow)
    unfolding insert_params_for_many store_batch
    client_insert_many store items (s, wake) = elim (insert_params_for_many items) [
      | err e ↦ ((s, wake), err e)
      | ok [] ↦ ((s, wake), ok [])
      | ok (p ∷ batch) ↦ store_batch store (p ∷ batch) (s, wake)
    ]
