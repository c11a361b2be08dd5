-- ===== src/Cli/Commands.antt =====
-- The commands of cmd/drover: cmd_stats.go, cmd_jobs.go, cmd_retry_cancel.go, cmd_enqueue.go and cmd_web.go. Each takes
-- the store and returns it with the exit code.
use drover.Prelude.{
  ℕ, String, Bool, ◌&&◌, List, [], ◌∷◌, Option, none, some, str_eq, if◌then◌else◌, Result, ok, err,
  ℤ, pos, ltb_ℤ,
}
use drover.Driver.{JobRow}
use drover.Inspector.{ListJobsOpts, InspectError}
use drover.Client.Enqueue.{InsertOpts}
use drover.Web.{Numerals}
use drover.Web.Server.{Calls, parse_job_id}
use drover.Cli.Flags.{FlagError, flag_refused, parse_flags}

-- The operator's calls: those of the status page, and Enqueue with the text of its args.
pub record Inspector (S D : Type 0) : Type 0 where
  pub calls : Calls S D
  pub enqueue : String → String → Option InsertOpts → S → S × Result InspectError JobRow

-- What the commands take from outside: strconv and strings.TrimSpace, json.Valid, strconv.ParseInt in base 0
-- as flag.Int uses it, time.ParseDuration, whether writeJSON succeeds, and what serving the status page does,
-- with false where it fails.
pub record Surroundings (S : Type 0) : Type 0 where
  pub nums : Numerals
  pub trim : String → String
  pub valid : String → Bool
  pub parse_int : String → Option ℤ
  pub parse_duration : String → Option ℤ
  pub json_written : Bool
  pub serves : String → ℤ → S → S × Bool

pub record EnqueueFlags : Type 0 where
  pub kind : String
  pub queue : String
  pub args : String

pub record ListFlags : Type 0 where
  pub queue : String
  pub state : String
  pub limit : ℤ

pub record WebConfig : Type 0 where
  pub listen : String
  pub refresh : ℤ

abbrev enqueue_defaults : EnqueueFlags
enqueue_defaults = record { kind = ""; queue = ""; args = "{}" }

abbrev list_defaults : ListFlags
list_defaults = record { queue = ""; state = ""; limit = pos 0 }

abbrev web_defaults : WebConfig
web_defaults = record { listen = "127.0.0.1:7180"; refresh = pos 5_000_000_000 }

unfoldable pub enqueue_flag : String → Option (String → EnqueueFlags → Option EnqueueFlags)
enqueue_flag name =
    if str_eq name "kind"
    then some (λ text f. some (record f { kind = text }))
    else if str_eq name "queue"
    then some (λ text f. some (record f { queue = text }))
    else if str_eq name "args"
    then some (λ text f. some (record f { args = text }))
    else none

abbrev set_limit : Option ℤ → ListFlags → Option ListFlags
set_limit none f = none
set_limit (some n) f = some (record f { limit = n })

unfoldable pub list_flag :
    (String → Option ℤ) → String → Option (String → ListFlags → Option ListFlags)
list_flag parse_int name =
    if str_eq name "queue"
    then some (λ text f. some (record f { queue = text }))
    else if str_eq name "state"
    then some (λ text f. some (record f { state = text }))
    else if str_eq name "limit"
    then some (λ text. set_limit (parse_int text))
    else none

abbrev set_refresh : Option ℤ → WebConfig → Option WebConfig
set_refresh none f = none
set_refresh (some d) f = some (record f { refresh = d })

unfoldable pub web_flag :
    (String → Option ℤ) → String → Option (String → WebConfig → Option WebConfig)
web_flag parse_duration name =
    if str_eq name "listen"
    then some (λ text f. some (record f { listen = text }))
    else if str_eq name "refresh"
    then some (λ text. set_refresh (parse_duration text))
    else none

-- The flags, unless an argument is left over.
abbrev pub no_arguments : {V : Type 0} → Result FlagError (V × List String) → Result FlagError V
no_arguments (ok (v, [])) = ok v
no_arguments (ok (v, a ∷ args)) = err flag_refused
no_arguments (err e) = err e

unfoldable pub enqueue_options : EnqueueFlags → Option InsertOpts
enqueue_options f =
    if str_eq f.queue ""
    then none
    else some (record { queue = f.queue; scheduled_at = 0; unique_key = "" })

unfoldable pub enqueue_args : (String → Bool) → List String → Result FlagError EnqueueFlags
unfolding parse_flags enqueue_flag
enqueue_args valid args =
    elim (no_arguments (parse_flags enqueue_flag none enqueue_defaults args)) [
      | err e ↦ err e
      | ok f ↦
          if str_eq f.kind ""
          then err flag_refused
          else if valid f.args
          then ok f
          else err flag_refused
    ]

unfoldable pub list_args : (String → Option ℤ) → List String → Result FlagError ListFlags
unfolding parse_flags list_flag
list_args parse_int args =
    elim (no_arguments (parse_flags (list_flag parse_int) none list_defaults args)) [
      | err e ↦ err e
      | ok f ↦ if ltb_ℤ (pos 1000) f.limit then err flag_refused else ok f
    ]

unfoldable pub parse_web_config : (String → Option ℤ) → List String → Result FlagError WebConfig
unfolding parse_flags web_flag
parse_web_config parse_duration args =
    elim (no_arguments (parse_flags (web_flag parse_duration) none web_defaults args)) [
      | err e ↦ err e
      | ok f ↦
          if ltb_ℤ (pos 0) f.refresh && ltb_ℤ f.refresh (pos 1_000_000_000)
          then err flag_refused
          else ok f
    ]

-- How a command ends by its call's answer: an error, or the printing.
abbrev pub exit_code : {A : Type 0} → Bool → Bool → Result InspectError A → ℕ
exit_code json json_written (err e) = 1
exit_code json json_written (ok a) = if json then (if json_written then 0 else 1) else 0

module _ {S D : Type 0} (world : Surroundings S) (inspector : Inspector S D) (json : Bool) where
  unfoldable pub run_stats : S → S × ℕ
  run_stats s = (s, exit_code json world.json_written (inspector.calls.stats s))

  unfoldable pub run_jobs_list : List String → S → S × ℕ
  unfolding list_args
  run_jobs_list args s = elim (list_args world.parse_int args) [
    | err e ↦ (s, 2)
    | ok f ↦
        let opts : ListJobsOpts = record { queue = f.queue; state = f.state; limit = f.limit } in
        (s, exit_code json world.json_written (inspector.calls.list_jobs (some opts) s))
  ]

  -- runRetry and runCancel, by their call.
  unfoldable pub run_mutation : (ℕ → S → S × Result InspectError JobRow) → List String → S → S × ℕ
  unfolding parse_job_id
  run_mutation mutate [] s = (s, 2)
  run_mutation mutate (a ∷ b ∷ args) s = (s, 2)
  run_mutation mutate (a ∷ []) s = elim (parse_job_id world.nums world.trim a) [
    | none ↦ (s, 2)
    | some id ↦ let out = mutate id s in (out.0, exit_code json world.json_written out.1)
  ]

  unfoldable pub run_enqueue : List String → S → S × ℕ
  unfolding enqueue_args enqueue_options
  run_enqueue args s = elim (enqueue_args world.valid args) [
    | err e ↦ (s, 2)
    | ok f ↦
        let out = inspector.enqueue f.kind f.args (enqueue_options f) s in
        (out.0, exit_code json world.json_written out.1)
  ]

  unfoldable pub run_web : List String → S → S × ℕ
  unfolding parse_web_config
  run_web args s = elim (parse_web_config world.parse_duration args) [
    | err e ↦ (s, 2)
    | ok cfg ↦ let out = world.serves cfg.listen cfg.refresh s in (out.0, if out.1 then 0 else 1)
  ]
