-- ===== src/Driver.antt =====
-- internal/driver/driver.go and job.go: the stored job, the lease, the parameters of an insert and
-- the sentinel errors. An instant is a number of nanoseconds since the zero time, which is 0.
-- The errors array is JSON text; encoding/json is the parameter `Codec`.
use drover.Prelude.{ℕ, String, ◌≡◌, Option, some, List, [], ◌∷◌, map}

abbrev pub Time : Type 0
Time = ℕ

abbrev pub Bytes : Type 0
Bytes = List ℕ

pub data JobState : Type 0 where
  available scheduled running retryable completed cancelled dead : JobState

abbrev pub state_text : JobState → String
state_text available = "available"
state_text scheduled = "scheduled"
state_text running = "running"
state_text retryable = "retryable"
state_text completed = "completed"
state_text cancelled = "cancelled"
state_text dead = "dead"

pub record Lease : Type 0 where
  pub id : ℕ
  pub attempt : ℕ

pub record InsertParams : Type 0 where
  pub kind : String
  pub queue : String
  pub args : Bytes
  pub scheduled_at : Time
  pub unique_key : String

pub record JobRow : Type 0 where
  pub id : ℕ
  pub kind : String
  pub queue : String
  pub args : Bytes
  pub state : JobState
  pub attempt : ℕ
  pub max_attempts : ℕ
  pub errors : Bytes
  pub scheduled_at : Time
  pub leased_until : Option Time
  pub created_at : Time
  pub finalized_at : Option Time
  pub unique_key : String

-- The sentinels, with the values that their wrapped messages name, and the errors that wrap none.
pub data Error : Type 0 where
  not_found : ℕ → Error
  invalid_transition : ℕ → JobState → Error
  lease_lost : ℕ → ℕ → ℕ → Error
  tx_unsupported : Error
  duplicate_job : Error
  bad_limit : Error
  decode_errors : ℕ → Error
  encode_errors : ℕ → Error
  limit_out_of_range : Error
  statement_failed : ℕ → Error

-- json.RawMessage("[]").
abbrev pub empty_array : Bytes
empty_array = 0x5b ∷ 0x5d ∷ []

-- json.Unmarshal and json.Marshal at []json.RawMessage. Marshal writes each raw value compactly.
pub record Codec : Type 0 where
  pub decode : Bytes → Option (List Bytes)
  pub encode : List Bytes → Option Bytes
  pub compact : Bytes → Bytes
  pub decode_empty : decode empty_array ≡ some []
  pub decode-encode :
      (xs : List Bytes) (b : Bytes) → encode xs ≡ some b → decode b ≡ some (map compact xs)
