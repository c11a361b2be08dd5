-- ===== src/Handlers.antt =====
-- middleware.go, worker.go and the execution of a job in loop.go and client.go: the chain of handlers.
-- `S` is the state that handlers change. A handler ends by returning or by a panic, whose stack
-- debug.Stack reads. Of a context only the deadline is kept; the job's arguments are decoded by the
-- parameter `decode`. Logging passes the job and the error on as they are.
pub mod Laws
pub mod Metrics
pub mod Tallies
mod Tests
use drover.Prelude.{
  ℕ, ◌+◌, String, Bool, true, false, List, [], ◌∷◌, ◌++◌, Option, none, some, ltb, str_eq,
  if◌then◌else◌, Result, ok, err, ℤ, pos, pos_part, leb_ℤ, min,
}
use drover.Driver.{Time, Bytes, JobRow}
use drover.Outcome.{JobError, message, wrap, panic_error}

pub data Ended : Type 0 where
  returned : Option JobError → Ended
  panicked : String → Bytes → Ended

abbrev pub Context : Type 0
Context = Option Time

abbrev pub Handler : Type 0 → Type 0
Handler S = Context → JobRow → S → S × Ended

abbrev pub Middleware : Type 0 → Type 0
Middleware S = Handler S → Handler S

-- The list from its last item to its first: slices.Backward.
unfoldable pub backward : {A : Type 0} → List A → List A
backward [] = []
backward (x ∷ xs) = backward xs ++ x ∷ []

-- The loop of wrap.
unfoldable pub wrap_each : {S : Type 0} → Handler S → List (Middleware S) → Handler S
wrap_each h [] = h
wrap_each h (mw ∷ mws) = wrap_each (mw h) mws

unfoldable pub wrap_handler : {S : Type 0} → Handler S → List (Middleware S) → Handler S
unfolding wrap_each backward
wrap_handler h mws = wrap_each h (backward mws)

-- context.WithTimeout: the parent's deadline stands if it is earlier.
unfoldable pub with_timeout : Time → ℕ → Context → Context
with_timeout now d none = some (now + d)
with_timeout now d (some deadline) = some (min deadline (now + d))

-- `now` is the clock when the handler starts.
unfoldable pub timeout : {S : Type 0} → ℤ → (S → Time) → Middleware S
unfolding with_timeout
timeout d now next =
    if leb_ℤ d (pos 0)
    then next
    else (λ ctx job s. next (with_timeout (now s) (pos_part d) ctx) job s)

-- The registry: a worker is its kind, and how it runs a decoded job.
abbrev pub Workers : Type 0 → Type 0
Workers S = List (String × Handler S)

unfoldable pub handler : {S : Type 0} → Workers S → String → Option (Handler S)
handler [] kind = none
handler ((k, h) ∷ workers) kind = if str_eq k kind then some h else handler workers kind

-- What Register stores for a worker.
unfoldable pub decoding :
    {S A : Type 0}
    → (Bytes → Result JobError A)
    → (Context → JobRow → A → S → S × Ended)
    → Handler S
decoding decode work ctx job s = elim (decode job.args) [
  | err e ↦ (s, returned (some (wrap "decode args for job" e)))
  | ok args ↦ work ctx job args s
]

-- Registering a kind again panics.
unfoldable pub register :
    {S A : Type 0}
    → String
    → (Bytes → Result JobError A)
    → (Context → JobRow → A → S → S × Ended)
    → Workers S
    → Result String (Workers S)
unfolding handler decoding
register kind decode work workers = elim (handler workers kind) [
  | some h ↦ err "drover: worker already registered for kind"
  | none ↦ ok (workers ++ (kind, decoding decode work) ∷ [])
]

-- The deferred recover of dispatch and of execute.
abbrev pub recovered : {S : Type 0} → S × Ended → S × Option JobError
recovered (s, returned e) = (s, e)
recovered (s, panicked value stack) = (s, some (panic_error value stack))

unfoldable pub dispatch : {S : Type 0} → Workers S → Handler S
unfolding handler
dispatch workers ctx job s = elim (handler workers job.kind) [
  | none ↦ (s, returned (some (message "no worker registered for kind")))
  | some fn ↦ let out = recovered (fn ctx job s) in (out.0, returned out.1)
]

unfoldable pub execute : {S : Type 0} → Handler S → Context → JobRow → S → S × Option JobError
execute chain ctx job s = recovered (chain ctx job s)

-- The chain that newClient builds: the client's own middlewares first.
unfoldable pub chain_of : {S : Type 0} → List (Middleware S) → Workers S → Handler S
unfolding wrap_handler dispatch
chain_of mws workers = wrap_handler (dispatch workers) mws
