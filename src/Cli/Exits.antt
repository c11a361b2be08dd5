-- ===== src/Cli/Exits.antt =====
-- What a run of the command line does to the store, and the code it exits with.
use drover.Prelude.{
  ℕ, String, Bool, true, false, List, ◌∷◌, Option, none, some, ◌≡◌, refl, sym, ap, subst, ◌∙◌, ◌<◌,
  ◌⊎◌, inl, inr, if◌then◌else◌, ok, err, Bool-cases, Result-cases,
}
use drover.Cli.Globals.{GlobalConfig, peel_globals, resolve_dsn}
use drover.Cli.Acts.{Act, retries, cancels, word_of, none_not_some, on_job, asked, command_of-word}
use drover.Cli.Effects.{
  perform, perform-small, Performed, run_mutation-Performed, run_enqueue-Performed,
  run_web-Performed, run_jobs_list-unchanged,
}
use drover.Cli.Commands.{
  Inspector, Surroundings, run_stats, run_jobs_list, run_mutation, run_enqueue, run_web,
}
use drover.Cli.Run.{
  Command, version_command, stats_command, bad_command, list_command, retry_command, cancel_command,
  enqueue_command, web_command, command_of, with_inspector, run_command, run,
}

module _ {S D : Type 0} (world : Surroundings S) (inspector : Inspector S D)
    (getenv : Option (String → String)) (opens : String → Bool) where
  -- A URL is given and an inspector opens at it.
  abbrev pub opened : GlobalConfig → Bool
  opened cfg = elim (resolve_dsn cfg.database getenv) [ err e ↦ false | ok dsn ↦ opens dsn ]

  abbrev tagged : Bool → Option Act → Option (Bool × Act)
  tagged json none = none
  tagged json (some a) = some (json, a)

  -- What a command line asks for: no help and no version, of an inspector that opens.
  abbrev pub wanted : List String → Option (Bool × Act)
  wanted args = elim (peel_globals args) [
    | err e ↦ none
    | ok out ↦
        if out.0.help
        then none
        else if out.0.version
        then none
        else tagged out.0.json
            (if opened out.0 then asked world out.0.json (command_of out.1) else none)
  ]

  with_inspector-cases :
      (cfg : GlobalConfig) (fn : S → S × ℕ) (s : S)
      → ((opened cfg ≡ false) × ((with_inspector world inspector getenv opens cfg fn s).0 ≡ s))
        ⊎ ((opened cfg ≡ true) × (with_inspector world inspector getenv opens cfg fn s ≡ fn s))
  unfolding with_inspector
  with_inspector-cases cfg fn s = elim (Result-cases (resolve_dsn cfg.database getenv)) [
    | inr (e, h) ↦ inl (rw (h, opened) refl, rw (h, with_inspector) refl)
    | inl (dsn, h) ↦ elim (Bool-cases (opens dsn)) [
      | inl up ↦ inr (rw (h, opened) (rw up refl), rw (h, with_inspector) (rw up refl))
      | inr down ↦ inl (rw (h, opened) (rw down refl), rw (h, with_inspector) (rw down refl))
    ]
  ]

  -- A command that asks for something does it if an inspector opens.
  with_inspector-Performed :
      (cfg : GlobalConfig) (o : Option Act) (fn : S → S × ℕ) (s : S)
      → Performed world inspector cfg.json s o (fn s)
      → Performed world inspector cfg.json s
          (if opened cfg then o else none)
          (with_inspector world inspector getenv opens cfg fn s)
  with_inspector-Performed cfg o fn s done = elim (with_inspector-cases cfg fn s) [
    | inl (closed, same) ↦ inl (rw closed refl, same)
    | inr (up, same) ↦ rw (up, same) done
  ]

  abbrev nothing : Option Act
  nothing = none

  nothing_asked : (b : Bool) → (if b then nothing else none) ≡ none
  nothing_asked true = refl
  nothing_asked false = refl

  run_command-Performed :
      (cfg : GlobalConfig) (c : Command) (s : S)
      → Performed world inspector cfg.json s
          (if opened cfg then asked world cfg.json c else none)
          (run_command world inspector getenv opens cfg c s)
  unfolding run_command run_stats
  run_command-Performed cfg bad_command s = inl (nothing_asked (opened cfg), refl)
  run_command-Performed cfg version_command s = inl (nothing_asked (opened cfg), refl)
  run_command-Performed cfg stats_command s =
      with_inspector-Performed cfg none (run_stats world inspector cfg.json) s (inl (refl, refl))
  run_command-Performed cfg (list_command args) s =
      with_inspector-Performed cfg none (run_jobs_list world inspector cfg.json args) s
        (inl (refl, run_jobs_list-unchanged world inspector cfg.json args s))
  run_command-Performed cfg (retry_command args) s =
      with_inspector-Performed cfg (on_job world retries args)
        (run_mutation world inspector cfg.json inspector.calls.retry args) s
        (run_mutation-Performed world inspector cfg.json retries inspector.calls.retry args s
          (λ n. refl))
  run_command-Performed cfg (cancel_command args) s =
      with_inspector-Performed cfg (on_job world cancels args)
        (run_mutation world inspector cfg.json inspector.calls.cancel args) s
        (run_mutation-Performed world inspector cfg.json cancels inspector.calls.cancel args s
          (λ n. refl))
  run_command-Performed cfg (enqueue_command args) s =
      with_inspector-Performed cfg (asked world cfg.json (enqueue_command args))
        (run_enqueue world inspector cfg.json args) s
        (run_enqueue-Performed world inspector cfg.json args s)
  run_command-Performed cfg (web_command args) s = elim (Bool-cases cfg.json) [
    | inl json ↦ inl (rw json (nothing_asked (opened cfg)), rw json refl)
    | inr plain ↦
        let same : run_command world inspector getenv opens cfg (web_command args) s
            ≡ with_inspector world inspector getenv opens cfg
                (run_web world inspector cfg.json args) s =
          rw plain refl in
        subst
          (Performed world inspector cfg.json s
            (if opened cfg then asked world cfg.json (web_command args) else none))
          (sym same)
          (with_inspector-Performed cfg (asked world cfg.json (web_command args))
            (run_web world inspector cfg.json args) s
            (run_web-Performed world inspector cfg.json args s plain))
  ]

  if_opened :
      (cfg : GlobalConfig) (o : Option Act) (a : Act)
      → (if opened cfg then o else none) ≡ some a
      → o ≡ some a
  if_opened cfg o a e = elim (Bool-cases (opened cfg)) [
    | inl up ↦ let same : (if opened cfg then o else none) ≡ o = rw up refl in sym same ∙ e
    | inr down ↦
        let same : (if opened cfg then o else none) ≡ nothing = rw down refl in
        absurd (none_not_some (sym same ∙ e))
  ]

  -- A command line changes the store only by the one act that it asks for. It asks for one only if its globals can be
  -- read, it is no request for help or the version, an inspector opens at its URL, and what the globals leave is the act's
  -- word and valid arguments. Then it does that act and exits with 0 or 1: so a run that exits with 2 has changed nothing.
  pub run-Performed :
      (args : List String) (s : S)
      → let out = run world inspector getenv opens args s in
        ((wanted args ≡ none) × (out.0 ≡ s))
        ⊎ ((cfg : GlobalConfig) × (behind : List String) × (a : Act) × (peel_globals args
              ≡ ok (cfg, word_of a ∷ behind))
            × (wanted args ≡ some (cfg.json, a))
            × (out ≡ perform world inspector cfg.json a s)
            × (out.1 < 2))
  unfolding run
  run-Performed args s = elim (Result-cases (peel_globals args)) [
    | inr (e, h) ↦ inl (rw (h, wanted) refl, rw (h, run) refl)
    | inl ((cfg, rest), h) ↦ elim (Bool-cases cfg.help) [
      | inl help ↦ inl (rw (h, wanted) (rw help refl), rw (h, run) (rw help refl))
      | inr no_help ↦ elim (Bool-cases cfg.version) [
        | inl version ↦ inl (
          rw (h, wanted) (rw no_help (rw version refl)),
          rw (h, run) (rw no_help (rw version refl)),
        )
        | inr no_version ↦
            let same : run world inspector getenv opens args s
                ≡ run_command world inspector getenv opens cfg (command_of rest) s =
              rw (h, run) (rw no_help (rw no_version refl)) in
            let want : wanted args
                ≡ tagged cfg.json
                    (if opened cfg then asked world cfg.json (command_of rest) else none) =
              rw (h, wanted) (rw no_help (rw no_version refl)) in
            elim (run_command-Performed cfg (command_of rest) s) [
              | inl (nothing_asked, unchanged) ↦
                  inl (want ∙ ap (tagged cfg.json) nothing_asked, ap (λ o. o.0) same ∙ unchanged)
              | inr (a, one, done) ↦ inr (
                cfg,
                (command_of-word world cfg.json rest a
                    (if_opened cfg (asked world cfg.json (command_of rest)) a one)).0,
                a,
                h
                    ∙ ap (λ (r : List String). ok (cfg, r))
                        (command_of-word world cfg.json rest a
                          (if_opened cfg (asked world cfg.json (command_of rest)) a one)).1,
                want ∙ ap (tagged cfg.json) one,
                same ∙ done,
                subst (λ (o : S × ℕ). o.1 < 2) (sym (same ∙ done))
                    (perform-small world inspector cfg.json a s),
              )
            ]
      ]
    ]
  ]
