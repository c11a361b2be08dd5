-- ===== src/Cli/Tests.antt =====
-- Command lines over memdriver.
use drover.Prelude.{
  ℕ, String, true, false, List, [], ◌∷◌, ◌++◌, Option, none, some, str_eq, if◌then◌else◌, ◌≡◌, ◌≢◌,
  refl, ◌<◌, ◌⊎◌, ok, ℤ, pos, All,
}
use drover.Inspector.{inspect_list, retry_job, cancel_job, enqueue}
use drover.MemDriver.Sample.{sample}
use drover.MemDriver.Rows.{Store}
use drover.MemDriver.Read.{list_jobs}
use drover.MemDriver.Insert.{insert}
use drover.MemDriver.Operator.{redrive_dead, operator_cancel}
use drover.Web.Buttons.{undisturbed}
use drover.Cli.Globals.{
  json_switch, GlobalConfig, Token, database_flag, terminator, plain, token, peel_from,
  peel_globals,
}
use drover.Cli.Switches.{written_as, peel_globals-anywhere}
use drover.Cli.Commands.{Inspector, Surroundings}
use drover.Cli.Run.{run}
use drover.Cli.Acts.{Act, word_of}
use drover.Cli.Effects.{perform}
use drover.Cli.Exits.{wanted, run-Performed}

abbrev parts : List String
parts = "jobs" ∷ "--database" ∷ "postgres://db" ∷ []

abbrev with_database : GlobalConfig
with_database = record { database = "postgres://db"; json = false; version = false; help = false }

plain_differs : Path Token plain terminator → ⊥
plain_differs e = cc

database_differs : Path Token database_flag terminator → ⊥
database_differs e = cc

parts_open : All (λ a. token a ≢ terminator) parts
unfolding token
parts_open = (plain_differs, (database_differs, (plain_differs, tt)))

parts_peeled : peel_globals parts ≡ ok (with_database, "jobs" ∷ [])
unfolding peel_globals peel_from token
parts_peeled = refl

peel_globals-anywhere_example :
    peel_globals (parts ++ written_as json_switch ∷ "list" ∷ [])
    ≡ peel_globals (written_as json_switch ∷ parts ++ "list" ∷ [])
peel_globals-anywhere_example =
    peel_globals-anywhere json_switch parts ("list" ∷ []) with_database ("jobs" ∷ []) parts_open
      parts_peeled

read_id : String → Option ℤ
read_id text = if str_eq text "3" then some (pos 3) else none

abbrev world : Surroundings Store
world = record {
  nums = record { itoa = λ n. "3"; atoi = read_id };
  trim = λ text. text;
  valid = λ text. true;
  parse_int = read_id;
  parse_duration = λ text. none;
  json_written = true;
  serves = λ listen refresh s. (s, true);
}

abbrev memdriver : Inspector Store ℕ
memdriver = record {
  calls = record {
    stats = λ s. ok 0;
    list_jobs = inspect_list list_jobs;
    retry = retry_job (redrive_dead 70 undisturbed undisturbed);
    cancel = cancel_job (operator_cancel 70 undisturbed undisturbed);
  };
  enqueue = λ kind args opts. enqueue (λ raw. true) (insert 70) kind (7 ∷ []) opts;
}

abbrev line : List String
line = "retry" ∷ "--json" ∷ "3" ∷ "--database" ∷ "postgres://db" ∷ []

run-Performed_example :
    let out = run world memdriver none (λ dsn. true) line sample in
    ((wanted world memdriver none (λ dsn. true) line ≡ none) × (out.0 ≡ sample))
    ⊎ ((cfg : GlobalConfig) × (behind : List String) × (a : Act) × (peel_globals line
          ≡ ok (cfg, word_of a ∷ behind))
        × (wanted world memdriver none (λ dsn. true) line ≡ some (cfg.json, a))
        × (out ≡ perform world memdriver cfg.json a sample)
        × (out.1 < 2))
run-Performed_example = run-Performed world memdriver none (λ dsn. true) line sample
