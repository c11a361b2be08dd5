-- ===== src/Inspector/Tests.antt =====
-- The operator's calls on the sample store.
use drover.Prelude.{◌≡◌, refl, Bool, true, [], Option, some, ok, pos}
use drover.Driver.{Bytes, JobRow}
use drover.MemDriver.Rows.{find_row}
use drover.MemDriver.Insert.{insert}
use drover.MemDriver.Sample.{sample}
use drover.Client.Enqueue.{InsertOpts}
use drover.Inspector.{ListJobsOpts, enqueue}
use drover.Inspector.Laws.{enqueue-unkeyed}

abbrev two : Option ListJobsOpts
two = some (record { queue = ""; state = "dead"; limit = pos 2 })

-- Job 2 of the sample store holds the slot of this key.
abbrev taken : InsertOpts
taken = record { queue = ""; scheduled_at = 0; unique_key = "k" }

abbrev any_bytes : Bytes → Bool
any_bytes b = true

enqueue-unkeyed_example :
    let after = enqueue any_bytes (insert 70) "mail" [] (some taken) sample in
    (r : JobRow) × (after.1 ≡ ok r) × (find_row r.id after.0.jobs ≡ some r) × (r.unique_key ≡ "")
enqueue-unkeyed_example = enqueue-unkeyed any_bytes 70 "mail" [] (some taken) sample refl refl
