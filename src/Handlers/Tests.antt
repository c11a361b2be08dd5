-- ===== src/Handlers/Tests.antt =====
-- Runs of small chains, and the theorem at a worker that panics.
use drover.Prelude.{
  ℕ, String, Bool, true, false, List, [], ◌∷◌, none, some, ok, err, pos, ◌≡◌, refl,
}
use drover.Driver.{Time, running, JobRow}
use drover.MemDriver.Sample.{job}
use drover.Handlers.{
  returned, panicked, Handler, Middleware, Workers, handler, timeout, with_timeout, chain_of,
  execute, register, wrap_handler, backward, wrap_each, dispatch,
}
use drover.Handlers.Metrics.{MetricSet, inc_executing, metrics_middleware}
use drover.Handlers.Tallies.{Tallied, execute-Tallied}

-- The state is a count of the calls.
abbrev crashing : Handler ℕ
crashing ctx row n = (n, panicked "boom" (7 ∷ 8 ∷ []))

abbrev workers : Workers ℕ
workers = ("mail", crashing) ∷ []

abbrev clock : ℕ → Time
clock n = 40

abbrev bounded : List (Middleware ℕ)
bounded = timeout (pos 5) clock ∷ []

abbrev row : JobRow
row = job 1 running 1 (some 60) none ""

-- The worker that the first context reaches.
abbrev deadline_seen : Handler ℕ
deadline_seen none _ n = (0, returned none)
deadline_seen (some deadline) _ n = (deadline, returned none)

timeout_bounds : (wrap_handler deadline_seen bounded (some 90) row 0).0 ≡ 45
unfolding wrap_handler timeout with_timeout
timeout_bounds = refl

twice :
    register "mail" (λ args. ok args) (λ ctx j args n. (n, returned none)) workers
    ≡ err "drover: worker already registered for kind"
unfolding register handler
twice = refl

abbrev idle : MetricSet
idle = record { completed = ("default", 4) ∷ []; failed = []; durations = []; executing = 2 }

abbrev crashes : Workers (MetricSet × ℕ)
crashes = ("mail", λ ctx row s. (s, panicked "boom" [])) ∷ []

abbrev any_queue : String → Bool
any_queue queue = true

execute-Tallied_example :
    let below = wrap_handler (dispatch crashes) [] none row (inc_executing idle, 0) in
    let after =
      (execute
        (chain_of (metrics_middleware any_queue clock ∷ []) crashes)
        none
        row
        (idle, 0)).0.0 in
    ((true ≡ true → Tallied "default" below.1 idle after) × (true ≡ false → after ≡ idle))
unfolding wrap_handler backward wrap_each dispatch handler
execute-Tallied_example = execute-Tallied any_queue clock [] crashes none row idle 0 refl
