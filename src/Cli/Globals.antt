-- ===== src/Cli/Globals.antt =====
-- cmd/drover/globals.go: the flags of every command, and the database's URL.
use Prim.Native.Char.{code}
use drover.Prelude.{
  String, Bool, true, false, List, [], ◌∷◌, Option, none, some, str_eq, ◌==◌, if◌then◌else◌, Result,
  ok, err,
}

pub record GlobalConfig : Type 0 where
  pub database : String
  pub json : Bool
  pub version : Bool
  pub help : Bool

abbrev pub no_globals : GlobalConfig
no_globals = record { database = ""; json = false; version = false; help = false }

pub data GlobalError : Type 0 where
  database_requires_value database_url_required : GlobalError

pub data Switch : Type 0 where
  json_switch version_switch help_switch : Switch

abbrev pub turn_on : Switch → GlobalConfig → GlobalConfig
turn_on json_switch cfg = record cfg { json = true }
turn_on version_switch cfg = record cfg { version = true }
turn_on help_switch cfg = record cfg { help = true }

-- What follows a prefix: strings.HasPrefix, and strings.TrimPrefix where it holds.
unfoldable after_prefix : String → String → Option String
after_prefix text String.[] = some text
after_prefix String.[] (String.◌∷◌ p prefix) = none
after_prefix (String.◌∷◌ c text) (String.◌∷◌ p prefix) =
    if code c == code p then after_prefix text prefix else none

-- The cases of the switch in peelGlobals.
pub data Token : Type 0 where
  terminator : Token
  switch : Switch → Token
  database_flag : Token
  database_value : String → Token
  plain : Token

unfoldable pub token : String → Token
unfolding after_prefix
token a =
    if str_eq a "--"
    then terminator
    else if str_eq a "--json"
    then switch json_switch
    else if str_eq a "--version"
    then switch version_switch
    else if str_eq a "-h"
    then switch help_switch
    else if str_eq a "--help"
    then switch help_switch
    else if str_eq a "--database"
    then database_flag
    else elim (after_prefix a "--database=") [ none ↦ plain | some v ↦ database_value v ]

abbrev pub keep_plain :
    String
    → Result GlobalError (GlobalConfig × List String)
    → Result GlobalError (GlobalConfig × List String)
keep_plain a (ok (cfg, rest)) = ok (cfg, a ∷ rest)
keep_plain a (err e) = err e

-- The loop, where the Boolean says that the argument before was --database.
unfoldable pub peel_from :
    Bool → GlobalConfig → List String → Result GlobalError (GlobalConfig × List String)
peel_from true cfg [] = err database_requires_value
peel_from true cfg (a ∷ args) = peel_from false (record cfg { database = a }) args
peel_from false cfg [] = ok (cfg, [])
peel_from false cfg (a ∷ args) = elim (token a) [
  | terminator ↦ ok (cfg, args)
  | switch s ↦ peel_from false (turn_on s cfg) args
  | database_flag ↦ peel_from true cfg args
  | database_value v ↦
      if str_eq v ""
      then err database_requires_value
      else peel_from false (record cfg { database = v }) args
  | plain ↦ keep_plain a (peel_from false cfg args)
]

unfoldable pub peel_globals : List String → Result GlobalError (GlobalConfig × List String)
unfolding peel_from
peel_globals args = peel_from false no_globals args

-- `getenv` is none for nil.
unfoldable pub resolve_dsn : String → Option (String → String) → Result GlobalError String
resolve_dsn flag_value getenv =
    if str_eq flag_value ""
    then elim getenv [
      | none ↦ err database_url_required
      | some get ↦
          let v = get "DATABASE_URL" in if str_eq v "" then err database_url_required else ok v
    ]
    else ok flag_value
