-- ===== src/Cli/Effects.antt =====
-- What each command that has an inspector does.
use drover.Prelude.{
  ℕ, String, Bool, true, false, List, [], ◌∷◌, Option, none, some, ◌≡◌, refl, sym, ◌<◌, ◌⊎◌, inl,
  inr, arith, if◌then◌else◌, Result, ok, err, Option-cases, Result-cases,
}
use drover.Driver.{JobRow}
use drover.Inspector.{InspectError}
use drover.Web.Server.{parse_job_id}
use drover.Cli.Acts.{Act, retries, cancels, enqueues, shows_page, on_job, asked}
use drover.Cli.Commands.{
  Inspector, Surroundings, enqueue_options, enqueue_args, parse_web_config, list_args, exit_code,
  run_jobs_list, run_mutation, run_enqueue, run_web,
}
use drover.Cli.Run.{enqueue_command, web_command}

exit_code-small :
    {A : Type 0} (json written : Bool) (r : Result InspectError A) → exit_code json written r < 2
exit_code-small json written (err e) = ground arith
exit_code-small true true (ok a) = ground arith
exit_code-small true false (ok a) = ground arith
exit_code-small false written (ok a) = ground arith

module _ {S D : Type 0} (world : Surroundings S) (inspector : Inspector S D) where
  abbrev pub perform : Bool → Act → S → S × ℕ
  perform json (retries n) s = (
    (inspector.calls.retry n s).0,
    exit_code json world.json_written (inspector.calls.retry n s).1,
  )
  perform json (cancels n) s = (
    (inspector.calls.cancel n s).0,
    exit_code json world.json_written (inspector.calls.cancel n s).1,
  )
  perform json (enqueues f) s = (
    (inspector.enqueue f.kind f.args (enqueue_options f) s).0,
    exit_code json world.json_written (inspector.enqueue f.kind f.args (enqueue_options f) s).1,
  )
  perform json (shows_page cfg) s = (
    (world.serves cfg.listen cfg.refresh s).0,
    if (world.serves cfg.listen cfg.refresh s).1 then 0 else 1,
  )

  pub perform-small : (json : Bool) (a : Act) (s : S) → (perform json a s).1 < 2
  perform-small json (retries n) s =
      exit_code-small json world.json_written (inspector.calls.retry n s).1
  perform-small json (cancels n) s =
      exit_code-small json world.json_written (inspector.calls.cancel n s).1
  perform-small json (enqueues f) s =
      exit_code-small json world.json_written
        (inspector.enqueue f.kind f.args (enqueue_options f) s).1
  perform-small json (shows_page cfg) s = ground arith

  abbrev pub Performed : Bool → S → Option Act → S × ℕ → Type 0
  Performed json s o out =
      ((o ≡ none) × (out.0 ≡ s)) ⊎ ((a : Act) × (o ≡ some a) × (out ≡ perform json a s))

  pub run_mutation-Performed :
      (json : Bool) (f : ℕ → Act) (mutate : ℕ → S → S × Result InspectError JobRow)
      (args : List String) (s : S)
      → ((n : ℕ)
          → perform json (f n) s
            ≡ ((mutate n s).0, exit_code json world.json_written (mutate n s).1))
      → Performed json s (on_job world f args) (run_mutation world inspector json mutate args s)
  unfolding run_mutation
  run_mutation-Performed json f mutate [] s same = inl (refl, refl)
  run_mutation-Performed json f mutate (a ∷ b ∷ args) s same = inl (refl, refl)
  run_mutation-Performed json f mutate (a ∷ []) s same =
      elim (Option-cases (parse_job_id world.nums world.trim a)) [
        | inl e ↦ inl (rw (e, on_job) refl, rw (e, run_mutation) refl)
        | inr (n, e) ↦ inr (f n, rw (e, on_job) refl, rw (e, run_mutation) (sym (same n)))
      ]

  pub run_enqueue-Performed :
      (json : Bool) (args : List String) (s : S)
      → Performed json s
          (asked world json (enqueue_command args))
          (run_enqueue world inspector json args s)
  unfolding run_enqueue
  run_enqueue-Performed json args s = elim (Result-cases (enqueue_args world.valid args)) [
    | inl (f, e) ↦ inr (enqueues f, rw (e, asked) refl, rw (e, run_enqueue) refl)
    | inr (e, h) ↦ inl (rw (h, asked) refl, rw (h, run_enqueue) refl)
  ]

  pub run_web-Performed :
      (json : Bool) (args : List String) (s : S)
      → json ≡ false
      → Performed json s (asked world json (web_command args)) (run_web world inspector json args s)
  unfolding run_web
  run_web-Performed true args s plain = absurd cc
  run_web-Performed false args s plain =
      elim (Result-cases (parse_web_config world.parse_duration args)) [
        | inl (cfg, e) ↦ inr (shows_page cfg, rw (e, asked) refl, rw (e, run_web) refl)
        | inr (e, h) ↦ inl (rw (h, asked) refl, rw (h, run_web) refl)
      ]

  pub run_jobs_list-unchanged :
      (json : Bool) (args : List String) (s : S) → (run_jobs_list world inspector json args s).0 ≡ s
  unfolding run_jobs_list
  run_jobs_list-unchanged json args s = elim (Result-cases (list_args world.parse_int args)) [
    | inl (f, e) ↦ rw (e, run_jobs_list) refl
    | inr (e, h) ↦ rw (h, run_jobs_list) refl
  ]
