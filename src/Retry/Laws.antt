-- ===== src/Retry/Laws.antt =====
-- The bounds of the default schedule, and what retryAt answers.
use drover.Prelude.{ℕ, ◌+◌, ◌*◌, ◌/◌, ◌^◌, ◌≡◌, ◌≤◌, ◌<◌, none, some, arith, max}
use native.Mathlib.Nat.{mul-le-mul}
use drover.Driver.{Time, JobRow}
use drover.Retry.{RetryPolicy, draws, exponential_delay, exponential_next_retry, retry_at}

scaled : (a d : ℕ) → d < draws → 0 < a → a * d < a * draws
scaled a d h p = grind arith

within_tenth :
    (a d : ℕ)
    → d < draws
    → 0 < a
    → (9 * a ≤ a * (9 * draws + 2 * d) / draws) × (a * (9 * draws + 2 * d) / draws < 11 * a)
within_tenth a d h p = omega (arith, scaled a d h p)

mul-pos : (a b : ℕ) → 0 < a → 0 < b → 0 < a * b
mul-pos a b p q = grind arith

fourth_mono : (a b : ℕ) → a ≤ b → a * a * a * a ≤ b * b * b * b
fourth_mono a b h = mul-le-mul (mul-le-mul (mul-le-mul h h) h) h

-- For an attempt between the first and the three hundredth, the wait is attempt⁴ seconds less or plus
-- at most a tenth, in nanoseconds, whatever is drawn, and it fits a time.Duration.
pub exponential_delay_bounds :
    (attempt draw : ℕ)
    → 0 < attempt
    → attempt ≤ 300
    → draw < draws
    → let tenth = attempt * attempt * attempt * attempt * 100_000_000 in
      (9 * tenth ≤ exponential_delay attempt draw)
      × (exponential_delay attempt draw < 11 * tenth)
      × (exponential_delay attempt draw < 2 ^ 63)
unfolding exponential_delay
exponential_delay_bounds attempt draw p few h =
    let (low, high) =
      within_tenth (attempt * attempt * attempt * attempt * 100_000_000) draw h
        (mul-pos _ _ (mul-pos _ _ (mul-pos _ _ (mul-pos _ _ p p) p) p) (omega arith)) in
    (low, high, omega (arith, fourth_mono attempt 300 few))

-- The time that a failed job is retried at is never before now. It is the policy's answer if that is
-- not before now, and a policy that panics is replaced by the default schedule.
pub retry_at_lem :
    (policy : RetryPolicy) (job : JobRow) (now now' : Time) (draw : ℕ)
    → (now ≤ retry_at policy job now now' draw)
      × ((t : Time) → policy job ≡ some t → retry_at policy job now now' draw ≡ max t now)
      × (policy job ≡ none
          → retry_at policy job now now' draw ≡ max (exponential_next_retry now' draw job) now)
unfolding retry_at
retry_at_lem policy job now now' draw = (ground arith, λ t e. ground arith, λ e. ground arith)
