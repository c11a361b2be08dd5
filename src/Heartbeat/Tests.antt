-- ===== src/Heartbeat/Tests.antt =====
-- A beat over a store with one attempt in flight.
use drover.Prelude.{◌≡◌, [], ◌∷◌}
use drover.Inflight.{Inflight}
use drover.MemDriver.Sample.{sample}
use drover.MemDriver.Rows.{find_row}
use drover.Heartbeat.{beat}
use drover.Heartbeat.Renewal.{beat-Renews, renewed}

-- The attempt that runs in the store, and one of a job that is gone.
abbrev held : Inflight
held = record { id = 1; attempt = 1 } ∷ record { id = 9; attempt = 1 } ∷ []

beat-Renews_example :
    find_row 1 (beat 55 10 held sample).jobs ≡ renewed 65 held (find_row 1 sample.jobs)
beat-Renews_example = beat-Renews 55 10 held sample 1
