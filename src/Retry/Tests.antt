-- ===== src/Retry/Tests.antt =====
-- The schedule of the third attempt, and a policy that answers in the past.
use drover.Prelude.{some}
use drover.Retry.{RetryPolicy}

abbrev past : RetryPolicy
past row = some 7
