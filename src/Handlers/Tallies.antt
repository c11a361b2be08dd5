-- ===== src/Handlers/Tallies.antt =====
-- What an execution adds to the metrics.
use drover.Prelude.{
  ℕ, ◌+◌, ◌≡◌, refl, ap, ◌∙◌, sym, subst, String, Bool, true, false, List, [], ◌∷◌, none, some,
  str_eq, if◌then◌else◌, arith, eq_iff, length,
}
use drover.Driver.{Time, JobRow}
use drover.Handlers.{
  Ended, returned, panicked, Context, Middleware, Workers, recovered, dispatch, execute, chain_of,
  wrap_handler,
}
use drover.Handlers.Laws.{Transparent, end_of, wrap_handler-outermost}
use drover.Handlers.Metrics.{
  MetricSet, series, increment, observe_execution, inc_executing, observed, metrics_middleware,
}

series-increment :
    (q queue : String) (m : List (String × ℕ))
    → series q (increment queue m) ≡ (if str_eq queue q then series q m + 1 else series q m)
unfolding series increment
series-increment q queue [] = refl
series-increment q queue ((k, n) ∷ m) =
    ground (arith, eq_iff k queue, eq_iff k q, eq_iff queue q, series-increment q queue m)

observed-end :
    {S : Type 0} (accepts : String → Bool) (queue : String) (start : Time) (now : S → Time)
    (out : (MetricSet × S) × Ended)
    → end_of (observed accepts queue start now out).1 ≡ end_of out.1
unfolding observed
observed-end accepts queue start now ((m, s), returned e) = refl
observed-end accepts queue start now ((m, s), panicked value stack) = refl

observed-rest :
    {S : Type 0} (accepts : String → Bool) (queue : String) (start : Time) (now : S → Time)
    (out : (MetricSet × S) × Ended)
    → (observed accepts queue start now out).0.1 ≡ out.0.1
unfolding observed
observed-rest accepts queue start now ((m, s), returned e) = refl
observed-rest accepts queue start now ((m, s), panicked value stack) = refl

-- What metricsMiddleware changes itself are the metrics.
pub metrics_middleware-Transparent :
    {S : Type 0} (accepts : String → Bool) (now : S → Time)
    → Transparent (λ (t : MetricSet × S). t.1) (metrics_middleware accepts now)
unfolding metrics_middleware
metrics_middleware-Transparent accepts now next ctx job (m, s) = (
  ctx,
  (inc_executing m, s),
  refl,
  observed-rest accepts job.queue (now s) now (next ctx job (inc_executing m, s)),
  observed-end accepts job.queue (now s) now (next ctx job (inc_executing m, s)),
)

abbrev successes : Ended → ℕ
successes (returned none) = 1
successes (returned (some e)) = 0
successes (panicked value stack) = 0

abbrev failures : Ended → ℕ
failures (returned none) = 0
failures (returned (some e)) = 1
failures (panicked value stack) = 0

-- What an execution on a queue adds to the metrics, by how the handlers below the middleware end.
abbrev pub Tallied : String → Ended → MetricSet → MetricSet → Type 0
Tallied queue ended m after =
    (after.executing ≡ m.executing)
    × (length after.durations ≡ length m.durations + successes ended + failures ended)
    × ((q : String)
        → series q after.completed ≡ (
            if str_eq queue q
            then series q m.completed + successes ended
            else series q m.completed))
    × ((q : String)
        → series q after.failed
          ≡ (if str_eq queue q then series q m.failed + failures ended else series q m.failed))

add_zero_if : (b : Bool) (n : ℕ) → n ≡ (if b then n + 0 else n)
add_zero_if b n = ground arith

observed-Tallied :
    {S : Type 0} (accepts : String → Bool) (queue : String) (start : Time) (now : S → Time)
    (m : MetricSet) (s : S) (ended : Ended)
    → accepts queue ≡ true
    → Tallied queue ended m (observed accepts queue start now ((inc_executing m, s), ended)).0.0
unfolding observed observe_execution
observed-Tallied accepts queue start now m s (returned none) taken = rw taken (
  omega arith,
  omega arith,
  (λ q. series-increment q queue m.completed),
  λ q. add_zero_if (str_eq queue q) (series q m.failed),
)
observed-Tallied accepts queue start now m s (returned (some e)) taken = rw taken (
  omega arith,
  omega arith,
  (λ q. add_zero_if (str_eq queue q) (series q m.completed)),
  λ q. series-increment q queue m.failed,
)
observed-Tallied accepts queue start now m s (panicked value stack) taken = (
  omega arith,
  omega arith,
  (λ q. add_zero_if (str_eq queue q) (series q m.completed)),
  λ q. add_zero_if (str_eq queue q) (series q m.failed),
)

observed-refused :
    {S : Type 0} (accepts : String → Bool) (queue : String) (start : Time) (now : S → Time)
    (m : MetricSet) (s : S) (ended : Ended)
    → accepts queue ≡ false
    → (observed accepts queue start now ((inc_executing m, s), ended)).0.0 ≡ m
unfolding observed observe_execution
observed-refused accepts queue start now m s (returned e) refused = rw refused (ground arith)
observed-refused accepts queue start now m s (panicked value stack) refused = ground arith

recovered-state : {S : Type 0} (out : S × Ended) → (recovered out).0 ≡ out.0
recovered-state (s, returned e) = refl
recovered-state (s, panicked value stack) = refl

module _ {S : Type 0} (accepts : String → Bool) (queue : String) (start : Time) (now : S → Time)
    (m : MetricSet) where
  observed-from :
      (out : (MetricSet × S) × Ended)
      → out.0.0 ≡ inc_executing m
      → ((accepts queue ≡ true → Tallied queue out.1 m (observed accepts queue start now out).0.0)
          × (accepts queue ≡ false → (observed accepts queue start now out).0.0 ≡ m))
  observed-from ((m', s), ended) e =
      subst
        (λ m'.
          (accepts queue ≡ true
            → Tallied queue ended m (observed accepts queue start now ((m', s), ended)).0.0)
          × (accepts queue ≡ false → (observed accepts queue start now ((m', s), ended)).0.0 ≡ m))
        (sym e)
        (
          observed-Tallied accepts queue start now m s ended,
          observed-refused accepts queue start now m s ended,
        )

-- An execution leaves the gauge of running executions where it found it, however the handlers below the
-- middleware end. If they return, it adds one duration and one to one counter of the job's queue: to the completed
-- if no error came back and to the failed if one did. If they panic it adds nothing. Where the queue's name is
-- no label the metrics stay as they were.
pub execute-Tallied :
    {S : Type 0} (accepts : String → Bool) (now : S → Time)
    (mws : List (Middleware (MetricSet × S))) (workers : Workers (MetricSet × S)) (ctx : Context)
    (job : JobRow) (m : MetricSet) (s : S)
    → let below = wrap_handler (dispatch workers) mws ctx job (inc_executing m, s) in
      let after =
        (execute (chain_of (metrics_middleware accepts now ∷ mws) workers) ctx job (m, s)).0.0 in
      (below.0.0 ≡ inc_executing m)
      → ((accepts job.queue ≡ true → Tallied job.queue below.1 m after)
          × (accepts job.queue ≡ false → after ≡ m))
unfolding execute chain_of metrics_middleware
execute-Tallied accepts now mws workers ctx job m s kept =
    let chain = wrap_handler (dispatch workers) (metrics_middleware accepts now ∷ mws) in
    let below = wrap_handler (dispatch workers) mws ctx job (inc_executing m, s) in
    let same : (recovered (chain ctx job (m, s))).0.0
        ≡ (observed accepts job.queue (now s) now below).0.0 =
      ap (λ u. u.0) (recovered-state (chain ctx job (m, s)))
      ∙ ap (λ h. (h ctx job (m, s)).0.0)
          (wrap_handler-outermost (dispatch workers) (metrics_middleware accepts now) mws) in
    rw same (observed-from accepts job.queue (now s) now m below kept)
