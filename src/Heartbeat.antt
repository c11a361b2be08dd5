-- ===== src/Heartbeat.antt =====
-- heartbeat.go: a beat renews the leases of the in-flight set over memdriver. The ticker and the report of
-- an error, which memdriver's ExtendLeases never returns, are left out.
pub mod Renewal
mod Tests
use drover.Prelude.{ℕ, List, ◌==◌, if◌then◌else◌, length}
use drover.Driver.{Time, Lease}
use drover.MemDriver.Rows.{Store}
use drover.MemDriver.Claim
use drover.Inflight.{Inflight, snapshot}

unfoldable pub beat : Time → Time → Inflight → Store → Store
unfolding snapshot
beat now lease_duration inflight s =
    if length (snapshot inflight) == 0
    then s
    else Claim.extend_leases now (snapshot inflight) lease_duration s
