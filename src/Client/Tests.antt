-- ===== src/Client/Tests.antt =====
-- A batch whose second item has no kind, and two calls of Start that race.
use drover.Prelude.{
  ℕ, ◌+◌, ◌≤◌, refl, ◌≡◌, ◌≢◌, ◌⊎◌, String, true, false, List, [], ◌∷◌, Option, none, some, Result,
  ok, err,
}
use drover.Driver.{Bytes, InsertParams, JobRow, Error, tx_unsupported}
use drover.Client.Enqueue.{InsertItem, ClientError, client_insert_many, store_batch}
use drover.Client.Lifecycle.{
  Lifecycle, Reached, start, next, begins, looks, binds, publishes, loses, started, refused, bound,
  called, unstarted, err_already_started, total, is_started, holds_listener, flag, Reached-once,
}
use drover.Client.Batch.{Yields, FailsAt, client_insert_many-cases}

-- The args are their own kind, and nothing is refused by the encoder.
abbrev kind : String → String
kind s = s

abbrev marshal : String → Option Bytes
marshal s = some (7 ∷ [])

abbrev refuse : List InsertParams → ℕ → ℕ × Result Error (List JobRow)
refuse ps n = (n, err tx_unsupported)

abbrev items : List (InsertItem String)
items = record { args = some "mail"; opts = none } ∷ record { args = some ""; opts = none } ∷ []

client_insert_many-cases_example :
    let out = client_insert_many kind marshal true refuse items (3, false) in
    ((ps : List InsertParams) × Yields kind marshal items ps
      × (ps ≢ [])
      × (out ≡ store_batch kind marshal true refuse ps (3, false)))
    ⊎ ((items ≡ []) × (out ≡ ((3, false), ok [])))
    ⊎ ((e : ClientError) × (out ≡ ((3, false), err e)) × FailsAt kind marshal 0 items e)
client_insert_many-cases_example =
    client_insert_many-cases kind marshal true refuse items (3, false)

-- Both calls find no runner and bind an address; the second to begin publishes first.
abbrev raced : Lifecycle
raced = record {
  calls = started ∷ refused err_already_started ∷ [];
  runner = true;
  serving_ops = true;
  listeners = 1;
}

raced-Reached : Reached true raced
raced-Reached =
    next
      (next
        (next
          (next
            (next (next (next (next start begins) begins) (looks [] (called ∷ []) refl))
              (looks (unstarted ∷ []) [] refl))
            (binds [] (unstarted ∷ []) refl))
          (binds (bound true ∷ []) [] refl))
        (publishes [] (bound true ∷ []) true refl refl))
      (loses (started ∷ []) [] true refl refl)

Reached-once_example :
    (total is_started raced.calls ≡ flag raced.runner)
    × (total holds_listener raced.calls + flag raced.serving_ops ≡ raced.listeners)
    × (flag raced.serving_ops ≤ flag raced.runner)
Reached-once_example = Reached-once raced-Reached
