-- ===== src/Pool/Tests.antt =====
-- A round over a driver that answers with too much, a shutdown, and one turn of the slots.
use drover.Prelude.{
  ℕ, ◌≡◌, ◌≢◌, ◌≤◌, refl, String, Bool, false, List, [], ◌∷◌, none, some, arith, length, Result, ok,
  All, sort_by, insert_by, inl,
}
use drover.Driver.{Time, running, Lease, JobRow, Error}
use drover.MemDriver.Rows.{Store, find_row}
use drover.MemDriver.Mark.{mark_retryable, transition, retried, append_error, commit}
use drover.MemDriver.Sample.{marked, read, job, sample}
use drover.Inflight.{Inflight, snapshot}
use drover.Contract.{mem_driver}
use drover.Dispose.{Marshal, requeue}
use drover.Pool.{claim_round, escalate}
use drover.Pool.Claims.{claim_round-length}
use drover.Pool.Returns.{give_back, Returned, Takes, escalate-Returned}
use drover.Pool.Slots.{Slots, all_idle, take_slot, release_slots, hand_over, Step, Reached}

abbrev marshal : Marshal
marshal e = some (e.attempt ∷ e.at ∷ [])

abbrev at : Lease → Time
at l = 70

abbrev back : Lease → Store → Store × Result Error (Unit {0})
back = give_back (mem_driver marked) marshal at at

-- It answers with two jobs whatever was asked for.
abbrev greedy : String → ℕ → Store → Store × Result Error (List JobRow)
greedy queue limit s =
    (s, ok (job 1 running 1 (some 60) none "" ∷ job 2 running 1 (some 60) none "k" ∷ []))

abbrev never : ℕ → Bool
never n = false

claim_round-length_example :
    length (claim_round back greedy never ("mail" ∷ "bulk" ∷ []) 1 sample []).0 ≤ 1
claim_round-length_example = claim_round-length back greedy never ("mail" ∷ "bulk" ∷ []) 1 sample []

abbrev one : Inflight
one = record { id = 1; attempt = 1 } ∷ []

one_taken : Takes (mem_driver marked) marshal at at (record { id = 1; attempt = 1 }) sample
unfolding find_row requeue mark_retryable transition retried append_error commit read
one_taken u same =
    let found : find_row 1 u.jobs ≡ some (job 1 running 1 (some 60) none "") = same in
    rw (found, transition) refl

escalate-Returned_example :
    let out = escalate back sample one in
    Returned (mem_driver marked) marshal at at 1 out.0
    × (out.1 ≡ some (length (snapshot one)))
    × ((id : ℕ)
        → All (λ x. id ≢ x.id) one
        → (mem_driver marked).look id out.0 ≡ (mem_driver marked).look id sample)
unfolding snapshot sort_by insert_by
escalate-Returned_example =
    escalate-Returned (mem_driver marked) marshal at at sample one (record { id = 1; attempt = 1 })
      (tt, tt) (inl refl) one_taken

abbrev turned : Slots
turned = hand_over (release_slots 1 (take_slot (take_slot (all_idle 3))))

turned-Reached : Reached 3 turned
unfolding take_slot release_slots hand_over
turned-Reached =
    Reached.next
      (Reached.next
        (Reached.next (Reached.next Reached.start (Step.takes (omega arith) refl (omega arith)))
          (Step.takes (omega arith) refl (omega arith)))
        (Step.claims 1 (omega arith) refl (omega arith)))
      (Step.hands (omega arith))
