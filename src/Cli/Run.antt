-- ===== src/Cli/Run.antt =====
-- run and withInspector of cmd/drover/main.go. `opens` says whether an inspector opens at a URL.
use drover.Prelude.{
  ℕ, String, Bool, true, false, List, [], ◌∷◌, Option, str_eq, if◌then◌else◌, ok, err,
}
use drover.Cli.Globals.{GlobalConfig, peel_globals, resolve_dsn}
use drover.Cli.Commands.{
  Inspector, Surroundings, run_stats, run_jobs_list, run_mutation, run_enqueue, run_web,
}

-- The commands by name, with their arguments.
pub data Command : Type 0 where
  version_command stats_command bad_command : Command
  list_command retry_command cancel_command enqueue_command web_command : List String → Command

abbrev pub list_of : List String → Command
list_of [] = bad_command
list_of (a ∷ args) = if str_eq a "list" then list_command args else bad_command

unfoldable pub command_of : List String → Command
command_of [] = bad_command
command_of (name ∷ args) =
    if str_eq name "version"
    then version_command
    else if str_eq name "stats"
    then stats_command
    else if str_eq name "jobs"
    then list_of args
    else if str_eq name "retry"
    then retry_command args
    else if str_eq name "cancel"
    then cancel_command args
    else if str_eq name "enqueue"
    then enqueue_command args
    else if str_eq name "web"
    then web_command args
    else bad_command

module _ {S D : Type 0} (world : Surroundings S) (inspector : Inspector S D)
    (getenv : Option (String → String)) (opens : String → Bool) where
  unfoldable pub with_inspector : GlobalConfig → (S → S × ℕ) → S → S × ℕ
  unfolding resolve_dsn
  with_inspector cfg fn s = elim (resolve_dsn cfg.database getenv) [
    | err e ↦ (s, 2)
    | ok dsn ↦ elim (opens dsn) [ false ↦ (s, 1) | true ↦ fn s ]
  ]

  unfoldable pub run_command : GlobalConfig → Command → S → S × ℕ
  unfolding with_inspector
  run_command cfg bad_command s = (s, 2)
  run_command cfg version_command s = (s, 0)
  run_command cfg stats_command s = with_inspector cfg (run_stats world inspector cfg.json) s
  run_command cfg (list_command args) s =
      with_inspector cfg (run_jobs_list world inspector cfg.json args) s
  run_command cfg (retry_command args) s =
      with_inspector cfg (run_mutation world inspector cfg.json inspector.calls.retry args) s
  run_command cfg (cancel_command args) s =
      with_inspector cfg (run_mutation world inspector cfg.json inspector.calls.cancel args) s
  run_command cfg (enqueue_command args) s =
      with_inspector cfg (run_enqueue world inspector cfg.json args) s
  run_command cfg (web_command args) s =
      if cfg.json then (s, 2) else with_inspector cfg (run_web world inspector cfg.json args) s

  unfoldable pub run : List String → S → S × ℕ
  unfolding command_of run_command peel_globals
  run args s = elim (peel_globals args) [
    | err e ↦ (s, 2)
    | ok out ↦
        if out.0.help
        then (s, 0)
        else if out.0.version
        then (s, 0)
        else run_command out.0 (command_of out.1) s
  ]
