-- ===== src/MemDriver/Sample.antt =====
-- A concrete codec for the errors column and a small store, for the tests.
use drover.Prelude.{
  ℕ, zero, suc, ◌+◌, ◌≡◌, refl, String, List, [], ◌∷◌, ◌++◌, map, Option, none, some, ◌==◌,
  if◌then◌else◌, ap, sym, ◌∙◌,
}
use drover.Driver.{
  Time, Bytes, JobState, available, running, retryable, completed, dead, JobRow, Codec, empty_array,
}
use drover.MemDriver.Rows.{Store}
use mathlib.Core.Option.{some-injective}

-- A codec: [] as the source writes it, else a 1 and each element shifted by one and ended by a 0.
unfoldable pub split : Bytes → List Bytes
split [] = []
split (zero ∷ rest) = [] ∷ split rest
split (suc n ∷ rest) = elim (split rest) [ [] ↦ (n ∷ []) ∷ [] | x ∷ xs ↦ (n ∷ x) ∷ xs ]

unfoldable pub join : List Bytes → Bytes
join [] = []
join (x ∷ xs) = map suc x ++ 0 ∷ join xs

unfoldable pub write : List Bytes → Bytes
unfolding join
write [] = empty_array
write (x ∷ xs) = 1 ∷ join (x ∷ xs)

unfoldable pub read : Bytes → Option (List Bytes)
unfolding split
read [] = none
read (b ∷ bs) = if b == 1 then some (split bs) else some []

split-item : (x bs : Bytes) → split (map suc x ++ 0 ∷ bs) ≡ x ∷ split bs
unfolding split
split-item [] bs = refl
split-item (n ∷ x) bs = rw (split-item x bs) refl

split-join : (xs : List Bytes) → split (join xs) ≡ xs
unfolding join
split-join [] = unfold split in refl
split-join (x ∷ xs) = split-item x (join xs) ∙ ap (◌∷◌ x) (split-join xs)

map-same : (xs : List Bytes) → map (λ x. x) xs ≡ xs
map-same [] = refl
map-same (x ∷ xs) = ap (◌∷◌ x) (map-same xs)

pub read-write :
    (xs : List Bytes) (b : Bytes) → some (write xs) ≡ some b → read b ≡ some (map (λ x. x) xs)
unfolding read write
read-write [] b e = rw (← some-injective _ _ e) refl
read-write (x ∷ xs) b e =
    rw (← some-injective _ _ e) (ap some (split-join (x ∷ xs) ∙ sym (map-same (x ∷ xs))))

pub read-empty : read empty_array ≡ some []
unfolding read split
read-empty = refl

abbrev pub marked : Codec
marked = record {
  decode = read;
  encode = λ xs. some (write xs);
  compact = λ x. x;
  decode_empty = read-empty;
  decode-encode = read-write;
}

abbrev pub job : ℕ → JobState → ℕ → Option Time → Option Time → String → JobRow
job id state attempt lease done key = record {
  id = id;
  kind = "mail";
  queue = "default";
  args = [];
  state = state;
  attempt = attempt;
  max_attempts = 25;
  errors = empty_array;
  scheduled_at = 10 + id;
  leased_until = lease;
  created_at = 5;
  finalized_at = done;
  unique_key = key;
}

-- A running job, a waiting one in a unique slot, a dead one that left that slot, a retryable one and a
-- completed one.
abbrev pub sample : Store
sample = record {
  next_id = 5;
  jobs =
      job 1 running 1 (some 60) none ""
      ∷ job 2 available 0 none none "k"
      ∷ job 3 dead 25 none (some 50) "k"
      ∷ job 4 retryable 2 none none ""
      ∷ job 5 completed 1 none (some 40) ""
      ∷ [];
}
