-- ===== src/Handlers/Laws.antt =====
-- What the chain of handlers promises whatever its middlewares and workers do.
use drover.Prelude.{
  Bool, true, false, List, [], ◌∷◌, ◌++◌, Option, none, some, ℤ, pos, pos_part, leb_ℤ, ◌≡◌, refl,
  ◌∙◌, Bool-cases, inl, inr,
}
use drover.Driver.{Time, Bytes, JobRow}
use drover.Outcome.{JobError, stack_of}
use drover.Handlers.{
  Ended, returned, panicked, Context, Handler, Middleware, backward, wrap_each, wrap_handler,
  with_timeout, timeout,
}

wrap_each-append :
    {S : Type 0} (h : Handler S) (xs ys : List (Middleware S))
    → wrap_each h (xs ++ ys) ≡ wrap_each (wrap_each h xs) ys
unfolding wrap_each
wrap_each-append h [] ys = refl
wrap_each-append h (mw ∷ xs) ys = wrap_each-append (mw h) xs ys

-- The first middleware is outermost.
pub wrap_handler-outermost :
    {S : Type 0} (h : Handler S) (mw : Middleware S) (mws : List (Middleware S))
    → wrap_handler h (mw ∷ mws) ≡ mw (wrap_handler h mws)
unfolding wrap_handler backward
wrap_handler-outermost h mw mws =
    wrap_each-append h (backward mws) (mw ∷ []) ∙ unfold wrap_each in refl

-- How a handler ended: without an error, or with one and its recorded stack, or by a panic.
abbrev pub end_of : Ended → Option (Bool × Bytes)
end_of (returned none) = none
end_of (returned (some e)) = some (false, stack_of e)
end_of (panicked value stack) = some (true, stack)

-- The verdict on the attempt: no error, or an error with its recorded stack.
abbrev pub verdict : Option JobError → Option Bytes
verdict none = none
verdict (some e) = some (stack_of e)

abbrev pub verdict_of : Option (Bool × Bytes) → Option Bytes
verdict_of none = none
verdict_of (some out) = some out.1

-- A middleware that runs the next handler once, perhaps in another context, and passes its end on, perhaps with
-- context around an error. To the part of the state that `seen` shows it does nothing of its own.
abbrev pub Transparent : {S W : Type 0} → (S → W) → Middleware S → Type 0
Transparent {S} seen mw =
    (next : Handler S) (ctx : Context) (job : JobRow) (s : S)
    → (ctx' : Context) × (s' : S) × (seen s' ≡ seen s)
      × (seen (mw next ctx job s).0 ≡ seen (next ctx' job s').0)
      × (end_of (mw next ctx job s).1 ≡ end_of (next ctx' job s').1)

pub timeout-Transparent :
    {S W : Type 0} (seen : S → W) (d : ℤ) (now : S → Time) → Transparent seen (timeout d now)
unfolding timeout
timeout-Transparent seen d now next ctx job s = elim (Bool-cases (leb_ℤ d (pos 0))) [
  | inl off ↦ (ctx, s, refl, rw off refl, rw off refl)
  | inr on ↦ (with_timeout (now s) (pos_part d) ctx, s, refl, rw on refl, rw on refl)
]
