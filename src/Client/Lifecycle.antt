-- ===== src/Client/Lifecycle.antt =====
-- Start of loop.go as steps of the calls that race for it: each looks for a runner, binds the ops address, and
-- then publishes its runner under the lock. What the pool does then is Pool.Runner's.
use drover.Prelude.{
  ℕ, ◌+◌, ◌-◌, ◌≡◌, refl, ap, ◌≤◌, inl, inr, Bool, true, false, List, [], ◌∷◌, ◌++◌, arith,
  if◌then◌else◌, Bool-cases,
}

pub data StartError : Type 0 where
  err_already_started listen_failed : StartError

-- A call of Start: before its first look, past it, with its listener if an ops address is configured, or returned.
pub data Starting : Type 0 where
  called : Starting
  unstarted : Starting
  bound : Bool → Starting
  started : Starting
  refused : StartError → Starting

-- The calls, whether c.runner is set and owns a listener, and the listeners that are open.
pub record Lifecycle : Type 0 where
  pub calls : List Starting
  pub runner : Bool
  pub serving_ops : Bool
  pub listeners : ℕ

-- The first look at c.runner.
abbrev pub look : Bool → Starting
look runner = if runner then refused err_already_started else unstarted

-- A step of one call, between the calls `before` and `after` it. With an ops address the listener is the
-- environment's to give.
pub data Step (ops : Bool) : Lifecycle → Lifecycle → Type 0 where
  begins : {c : Lifecycle} → Step ops c (record c { calls = called ∷ c.calls })
  looks :
      {c : Lifecycle} (before after : List Starting)
      → c.calls ≡ before ++ called ∷ after
      → Step ops c (record c { calls = before ++ look c.runner ∷ after })
  binds :
      {c : Lifecycle} (before after : List Starting)
      → c.calls ≡ before ++ unstarted ∷ after
      → Step ops c (record c {
        calls = before ++ bound ops ∷ after;
        listeners = if ops then c.listeners + 1 else c.listeners;
      })
  fails :
      {c : Lifecycle} (before after : List Starting)
      → c.calls ≡ before ++ unstarted ∷ after
      → ops ≡ true
      → Step ops c (record c { calls = before ++ refused listen_failed ∷ after })
  publishes :
      {c : Lifecycle} (before after : List Starting) (with_listener : Bool)
      → c.calls ≡ before ++ bound with_listener ∷ after
      → c.runner ≡ false
      → Step ops c (record c {
        calls = before ++ started ∷ after;
        runner = true;
        serving_ops = with_listener;
      })
  loses :
      {c : Lifecycle} (before after : List Starting) (with_listener : Bool)
      → c.calls ≡ before ++ bound with_listener ∷ after
      → c.runner ≡ true
      → Step ops c (record c {
        calls = before ++ refused err_already_started ∷ after;
        listeners = if with_listener then c.listeners - 1 else c.listeners;
      })

abbrev pub new_client : Lifecycle
new_client = record { calls = []; runner = false; serving_ops = false; listeners = 0 }

pub data Reached (ops : Bool) : Lifecycle → Type 0 where
  start : Reached ops new_client
  next : {c d : Lifecycle} → Reached ops c → Step ops c d → Reached ops d

-- How many calls have returned nil, and how many hold a listener.
abbrev pub is_started : Starting → ℕ
is_started started = 1
is_started called = 0
is_started unstarted = 0
is_started (bound l) = 0
is_started (refused e) = 0

abbrev pub holds_listener : Starting → ℕ
holds_listener (bound true) = 1
holds_listener (bound false) = 0
holds_listener called = 0
holds_listener unstarted = 0
holds_listener started = 0
holds_listener (refused e) = 0

abbrev pub total : (Starting → ℕ) → List Starting → ℕ
total f [] = 0
total f (x ∷ xs) = f x + total f xs

total-append :
    (f : Starting → ℕ) (xs ys : List Starting) → total f (xs ++ ys) ≡ total f xs + total f ys
total-append f [] ys = omega arith
total-append f (x ∷ xs) ys = omega (arith, total-append f xs ys)

abbrev pub flag : Bool → ℕ
flag b = if b then 1 else 0

-- One call changes its place.
total-change :
    (f : Starting → ℕ) (before after : List Starting) (x y : Starting) (calls : List Starting)
    → calls ≡ before ++ x ∷ after
    → total f (before ++ y ∷ after) + f x ≡ total f calls + f y
total-change f before after x y calls e =
    omega
      (arith, ap (total f) e, total-append f before (x ∷ after), total-append f before (y ∷ after))

changes :
    (before after : List Starting) (x y : Starting) (calls : List Starting)
    → calls ≡ before ++ x ∷ after
    → (total is_started (before ++ y ∷ after) + is_started x
        ≡ total is_started calls + is_started y)
      × (total holds_listener (before ++ y ∷ after) + holds_listener x
          ≡ total holds_listener calls + holds_listener y)
changes before after x y calls e = (
  total-change is_started before after x y calls e,
  total-change holds_listener before after x y calls e,
)

record Kept (c : Lifecycle) : Type 0 where
  one : total is_started c.calls ≡ flag c.runner
  owned : total holds_listener c.calls + flag c.serving_ops ≡ c.listeners
  theirs : flag c.serving_ops ≤ flag c.runner

Step-Kept : {ops : Bool} {c d : Lifecycle} → Step ops c d → Kept c → Kept d
Step-Kept begins k = ground arith
Step-Kept {c = c} (looks before after e) k =
    let (one, owned) = changes before after called (look c.runner) c.calls e in
    elim (Bool-cases c.runner) [ inl on ↦ ground arith | inr off ↦ ground arith ]
Step-Kept {ops = true} {c = c} (binds before after e) k =
    let (one, owned) = changes before after unstarted (bound true) c.calls e in ground arith
Step-Kept {ops = false} {c = c} (binds before after e) k =
    let (one, owned) = changes before after unstarted (bound false) c.calls e in ground arith
Step-Kept {c = c} (fails before after e o) k =
    let (one, owned) = changes before after unstarted (refused listen_failed) c.calls e in
    ground arith
Step-Kept {c = c} (publishes before after true e off) k =
    let (one, owned) = changes before after (bound true) started c.calls e in ground arith
Step-Kept {c = c} (publishes before after false e off) k =
    let (one, owned) = changes before after (bound false) started c.calls e in ground arith
Step-Kept {c = c} (loses before after true e on) k =
    let (one, owned) = changes before after (bound true) (refused err_already_started) c.calls e in
    ground arith
Step-Kept {c = c} (loses before after false e on) k =
    let (one, owned) = changes before after (bound false) (refused err_already_started) c.calls e in
    ground arith

Reached-Kept : {ops : Bool} {c : Lifecycle} → Reached ops c → Kept c
Reached-Kept start = record { one = refl; owned = omega arith; theirs = omega arith }
Reached-Kept (next r s) = Step-Kept s (Reached-Kept r)

-- However calls of Start race, at most one returns nil, and exactly then the client has a runner; and each
-- open listener is held by a call that has yet to publish its runner or by the one runner, so that none is left open
-- by a call that lost the race.
pub Reached-once :
    {ops : Bool} {c : Lifecycle}
    → Reached ops c
    → (total is_started c.calls ≡ flag c.runner)
      × (total holds_listener c.calls + flag c.serving_ops ≡ c.listeners)
      × (flag c.serving_ops ≤ flag c.runner)
Reached-once r = let k = Reached-Kept r in (k.one, k.owned, k.theirs)
