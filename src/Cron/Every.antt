-- ===== src/Cron/Every.antt =====
-- The fires of an @every schedule.
use drover.Prelude.{ℕ, suc, ◌+◌, ◌*◌, ◌/◌, ◌≡◌, ◌≤◌, ◌<◌, arith}
use native.Mathlib.Nat.{div-add-mod', mod-lt}
use drover.Driver.{Time}
use drover.Cron.{advance, every_next}

after_truncated : (d t : ℕ) → 0 < d → (t < t / d * d + d) × (t / d * d + d ≤ t + d)
after_truncated d t h =
    (omega (arith, div-add-mod' t d, mod-lt t h), omega (arith, div-add-mod' t d))

-- The correction loop never turns.
advance-after : (n d t next : ℕ) → t < next → advance (n + 1) d t next ≡ next
advance-after n d t next h = rw (add_one n) (unfold advance in ground arith)
  where
    add_one : (n : ℕ) → n + 1 ≡ suc n
    add_one n = omega arith

-- A positive duration fires at the first multiple of it since the zero time that is strictly after the
-- instant asked about, which is at most one duration later.
pub every_next_lem :
    (d : ℕ) (t : Time)
    → 0 < d
    → (t < every_next d t) × (every_next d t ≤ t + d) × (every_next d t ≡ (t / d + 1) * d)
unfolding every_next
every_next_lem d t h =
    let (after, soon) = after_truncated d t h in
    rw (advance-after t d t (t / d * d + d) after) (after, soon, grind arith)
