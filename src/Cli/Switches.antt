-- ===== src/Cli/Switches.antt =====
-- Where a global switch may stand among the arguments.
use drover.Prelude.{
  String, Bool, true, false, List, [], ◌∷◌, ◌++◌, ◌≡◌, refl, sym, ◌∙◌, ap, ◌≢◌, str_eq, Result, ok,
  err, inl, inr, All, Bool-cases,
}
use drover.Cli.Globals.{
  GlobalConfig, no_globals, GlobalError, database_requires_value, Switch, json_switch,
  version_switch, help_switch, turn_on, Token, terminator, switch, database_flag, database_value,
  plain, token, keep_plain, peel_from, peel_globals,
}

-- What a switch is written as.
abbrev pub written_as : Switch → String
written_as json_switch = "--json"
written_as version_switch = "--version"
written_as help_switch = "--help"

turn_on-twice :
    (s t : Switch) (cfg : GlobalConfig) → turn_on s (turn_on t cfg) ≡ turn_on t (turn_on s cfg)
turn_on-twice json_switch json_switch cfg = refl
turn_on-twice json_switch version_switch cfg = refl
turn_on-twice json_switch help_switch cfg = refl
turn_on-twice version_switch json_switch cfg = refl
turn_on-twice version_switch version_switch cfg = refl
turn_on-twice version_switch help_switch cfg = refl
turn_on-twice help_switch json_switch cfg = refl
turn_on-twice help_switch version_switch cfg = refl
turn_on-twice help_switch help_switch cfg = refl

turn_on-database :
    (s : Switch) (cfg : GlobalConfig) (v : String)
    → record (turn_on s cfg) { database = v } ≡ turn_on s (record cfg { database = v })
turn_on-database json_switch cfg v = refl
turn_on-database version_switch cfg v = refl
turn_on-database help_switch cfg v = refl

abbrev Peeled : Type 0
Peeled = Result GlobalError (GlobalConfig × List String)

abbrev switched : Switch → Peeled → Peeled
switched s (ok (cfg, rest)) = ok (turn_on s cfg, rest)
switched s (err e) = err e

abbrev after : List String → Peeled → Peeled
after xs (ok (cfg, rest)) = ok (cfg, xs ++ rest)
after xs (err e) = err e

keep_plain-switched :
    (s : Switch) (a : String) (out : Peeled)
    → keep_plain a (switched s out) ≡ switched s (keep_plain a out)
keep_plain-switched s a (ok out) = refl
keep_plain-switched s a (err e) = refl

keep_plain-after :
    (a : String) (xs : List String) (out : Peeled)
    → keep_plain a (after xs out) ≡ after (a ∷ xs) out
keep_plain-after a xs (ok out) = refl
keep_plain-after a xs (err e) = refl

plain_ok :
    (a : String) (out : Peeled) (c : GlobalConfig) (r : List String)
    → keep_plain a out ≡ ok (c, r)
    → (r' : List String) × (out ≡ ok (c, r')) × (r ≡ a ∷ r')
plain_ok a (ok (c', r')) c r h = (r', cc, cc)
plain_ok a (err e) c r h = absurd cc

after-nothing : (out : Peeled) → after [] out ≡ out
after-nothing (ok (c, r)) = refl
after-nothing (err e) = refl

peeled_inj :
    {c d : GlobalConfig} {r r' : List String}
    → Path Peeled (ok (c, r)) (ok (d, r'))
    → (c ≡ d) × (r ≡ r')
peeled_inj h = (cc, cc)

ok_not_err : {p : GlobalConfig × List String} {e : GlobalError} → Path Peeled (ok p) (err e) → ⊥
ok_not_err h = cc

-- A switch that is on before the loop is on after it, and changes nothing else.
peel_from-switched :
    (s : Switch) (w : Bool) (cfg : GlobalConfig) (args : List String)
    → peel_from w (turn_on s cfg) args ≡ switched s (peel_from w cfg args)
unfolding peel_from
peel_from-switched s true cfg [] = refl
peel_from-switched s true cfg (a ∷ args) =
    ap (λ c. peel_from false c args) (turn_on-database s cfg a)
    ∙ peel_from-switched s false (record cfg { database = a }) args
peel_from-switched s false cfg [] = refl
peel_from-switched s false cfg (a ∷ args) =
    split (λ w k. peel_from-switched s w k args) (token a) refl
  where
    split :
        ((w : Bool) (k : GlobalConfig)
          → peel_from w (turn_on s k) args ≡ switched s (peel_from w k args))
        → (t : Token) → token a ≡ t
        → peel_from false (turn_on s cfg) (a ∷ args) ≡ switched s (peel_from false cfg (a ∷ args))
    split again terminator e = rw (e, peel_from) refl
    split again (switch t) e =
        rw (e, peel_from)
          (ap (λ c. peel_from false c args) (turn_on-twice t s cfg) ∙ again false (turn_on t cfg))
    split again database_flag e = rw (e, peel_from) (again true cfg)
    split again (database_value v) e = elim (Bool-cases (str_eq v "")) [
      | inl empty ↦ rw (e, peel_from) (rw empty refl)
      | inr full ↦
          rw (e, peel_from)
            (rw full (
              ap (λ c. peel_from false c args) (turn_on-database s cfg v)
              ∙ again false (record cfg { database = v })))
    ]
    split again plain e =
        rw (e, peel_from)
          (ap (keep_plain a) (again false cfg) ∙ keep_plain-switched s a (peel_from false cfg args))

-- Arguments that are peeled to the end leave the rest to be peeled from there.
peel_from-append :
    (w : Bool) (cfg : GlobalConfig) (xs ys : List String) (c : GlobalConfig) (r : List String)
    → All (λ a. token a ≢ terminator) xs
    → peel_from w cfg xs ≡ ok (c, r)
    → peel_from w cfg (xs ++ ys) ≡ after r (peel_from false c ys)
unfolding peel_from
peel_from-append true cfg [] ys c r no_end h = absurd (ok_not_err (sym h))
peel_from-append false cfg [] ys c r no_end h =
    let (same_config, same_rest) = peeled_inj h in
    ap (λ k. peel_from false k ys) same_config
    ∙ sym (after-nothing (peel_from false c ys))
    ∙ ap (λ k. after k (peel_from false c ys)) same_rest
peel_from-append true cfg (a ∷ xs) ys c r no_end h =
    peel_from-append false (record cfg { database = a }) xs ys c r no_end.1 h
peel_from-append false cfg (a ∷ xs) ys c r no_end h =
    split (λ w k r'. peel_from-append w k xs ys c r' no_end.1) (token a) refl
  where
    split :
        ((w : Bool) (k : GlobalConfig) (r' : List String)
          → peel_from w k xs ≡ ok (c, r')
          → peel_from w k (xs ++ ys) ≡ after r' (peel_from false c ys))
        → (t : Token) → token a ≡ t
        → peel_from false cfg (a ∷ xs ++ ys) ≡ after r (peel_from false c ys)
    split again terminator e = absurd (no_end.0 e)
    split again (switch t) e =
        let step : peel_from false cfg (a ∷ xs) ≡ peel_from false (turn_on t cfg) xs =
          rw (e, peel_from) refl in
        rw (e, peel_from) (again false (turn_on t cfg) r (sym step ∙ h))
    split again database_flag e =
        let step : peel_from false cfg (a ∷ xs) ≡ peel_from true cfg xs = rw (e, peel_from) refl in
        rw (e, peel_from) (again true cfg r (sym step ∙ h))
    split again (database_value v) e = elim (Bool-cases (str_eq v "")) [
      | inl empty ↦
          let step : peel_from false cfg (a ∷ xs) ≡ err database_requires_value =
            rw (e, peel_from) (rw empty refl) in
          absurd (ok_not_err (sym h ∙ step))
      | inr full ↦
          let step : peel_from false cfg (a ∷ xs)
              ≡ peel_from false (record cfg { database = v }) xs =
            rw (e, peel_from) (rw full refl) in
          rw (e, peel_from) (rw full (again false (record cfg { database = v }) r (sym step ∙ h)))
    ]
    split again plain e =
        let step : peel_from false cfg (a ∷ xs) ≡ keep_plain a (peel_from false cfg xs) =
          rw (e, peel_from) refl in
        let (r', peeled, whole) = plain_ok a (peel_from false cfg xs) c r (sym step ∙ h) in
        rw (e, peel_from)
          (rw (again false cfg r' peeled) (rw whole (keep_plain-after a r' (peel_from false c ys))))

peel_from-switch :
    (s : Switch) (cfg : GlobalConfig) (args : List String)
    → peel_from false cfg (written_as s ∷ args) ≡ peel_from false (turn_on s cfg) args
unfolding peel_from token
peel_from-switch json_switch cfg args = refl
peel_from-switch version_switch cfg args = refl
peel_from-switch help_switch cfg args = refl

-- A switch may stand at any place among the arguments before a "--": arguments that are peeled without error,
-- none of which is a "--", may stand before it or behind it, with the same globals and the same rest.
pub peel_globals-anywhere :
    (s : Switch) (xs ys : List String) (c : GlobalConfig) (r : List String)
    → All (λ a. token a ≢ terminator) xs
    → peel_globals xs ≡ ok (c, r)
    → peel_globals (xs ++ written_as s ∷ ys) ≡ peel_globals (written_as s ∷ xs ++ ys)
unfolding peel_globals
peel_globals-anywhere s xs ys c r no_end h =
    let ahead = peel_from-append false no_globals xs (written_as s ∷ ys) c r no_end h in
    let behind =
      peel_from-append false (turn_on s no_globals) xs ys (turn_on s c) r no_end
        (peel_from-switched s false no_globals xs ∙ ap (switched s) h) in
    ahead
    ∙ ap (after r) (peel_from-switch s c ys)
    ∙ sym behind
    ∙ sym (peel_from-switch s no_globals (xs ++ ys))
