-- ===== src/Retry.antt =====
-- retry.go. A policy is a function of the row and may panic (`none`). The draw of rand.Float64 is the
-- number `draw` over 2^53; the float product is modelled exactly and rounded down to nanoseconds, without
-- the overflow of its conversion to time.Duration, which 300 attempts do not reach.
pub mod Laws
mod Tests
use drover.Prelude.{ℕ, ◌+◌, ◌*◌, ◌/◌, ◌^◌, Option, none, some, ltb, if◌then◌else◌}
use drover.Driver.{Time, JobRow}

abbrev pub RetryPolicy : Type 0
RetryPolicy = JobRow → Option Time

abbrev pub draws : ℕ
draws = 2 ^ 53

-- attempt⁴ seconds times 0.9 + 0.2 * draw / 2^53.
unfoldable pub exponential_delay : ℕ → ℕ → ℕ
exponential_delay attempt draw =
    attempt * attempt * attempt * attempt * 100_000_000 * (9 * draws + 2 * draw) / draws

unfoldable pub exponential_next_retry : Time → ℕ → JobRow → Time
exponential_next_retry now draw job = now + exponential_delay job.attempt draw

-- `now'` is the clock that the default schedule reads, if the policy panics.
unfoldable pub retry_at : RetryPolicy → JobRow → Time → Time → ℕ → Time
retry_at policy job now now' draw =
    let at : Time = elim (policy job) [
      | some t ↦ t
      | none ↦ exponential_next_retry now' draw job
    ] in
    if ltb at now then now else at
