-- ===== src/Handlers/Metrics.antt =====
-- metrics.go: the counters of executions and the middleware that keeps them. A series is the value of a queue in an
-- association list; `accepts` is whether Prometheus takes a queue's name as a label, `now` reads the clock.
use drover.Prelude.{
  ℕ, ◌+◌, ◌-◌, String, Bool, List, [], ◌∷◌, Option, none, some, str_eq, if◌then◌else◌,
}
use drover.Driver.{Time}
use drover.Outcome.{JobError}
use drover.Handlers.{Ended, returned, panicked, Middleware}

-- `executing` is a gauge; `durations` are the observations of the histogram.
pub record MetricSet : Type 0 where
  pub completed : List (String × ℕ)
  pub failed : List (String × ℕ)
  pub durations : List (String × Time)
  pub executing : ℕ

-- The value of a series, zero before the first write.
unfoldable pub series : String → List (String × ℕ) → ℕ
series queue [] = 0
series queue ((q, n) ∷ m) = if str_eq q queue then n else series queue m

unfoldable pub increment : String → List (String × ℕ) → List (String × ℕ)
increment queue [] = (queue, 1) ∷ []
increment queue ((q, n) ∷ m) = if str_eq q queue then (q, n + 1) ∷ m else (q, n) ∷ increment queue m

unfoldable pub observe_execution :
    (String → Bool) → String → Time → Option JobError → MetricSet → MetricSet
unfolding increment
observe_execution accepts queue d e m =
    if accepts queue
    then (elim e [
      | none ↦ record m {
        completed = increment queue m.completed;
        durations = (queue, d) ∷ m.durations;
      }
      | some error ↦ record m {
        failed = increment queue m.failed;
        durations = (queue, d) ∷ m.durations;
      }
    ])
    else m

abbrev pub inc_executing : MetricSet → MetricSet
inc_executing m = record m { executing = m.executing + 1 }

abbrev pub dec_executing : MetricSet → MetricSet
dec_executing m = record m { executing = m.executing - 1 }

-- The end of the middleware's frame: a panic passes by the observation, and the deferred Dec runs either way.
unfoldable pub observed :
    {S : Type 0}
    → (String → Bool)
    → String
    → Time
    → (S → Time)
    → (MetricSet × S) × Ended
    → (MetricSet × S) × Ended
unfolding observe_execution
observed accepts queue start now ((m, s), returned e) =
    ((dec_executing (observe_execution accepts queue (now s - start) e m), s), returned e)
observed accepts queue start now ((m, s), panicked value stack) =
    ((dec_executing m, s), panicked value stack)

unfoldable pub metrics_middleware :
    {S : Type 0} → (String → Bool) → (S → Time) → Middleware (MetricSet × S)
unfolding observed
metrics_middleware accepts now next ctx job (m, s) =
    observed accepts job.queue (now s) now (next ctx job (inc_executing m, s))
