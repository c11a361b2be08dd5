-- ===== src/Cli/Flags.antt =====
-- What cmd/drover uses of flag.FlagSet: flags that take a value, parsed with ContinueOnError.
use Prim.Native.Char.{code}
use drover.Prelude.{
  String, ◌||◌, List, [], ◌∷◌, Option, none, some, str_eq, ◌==◌, if◌then◌else◌, Result, ok, err,
}

pub data FlagError : Type 0 where
  flag_refused help_requested : FlagError

-- What an argument is to a FlagSet: the first that is no flag, "--", a malformed flag, or a flag by its name, with
-- the value behind its "=".
pub data FlagText : Type 0 where
  no_flag end_of_flags bad_syntax : FlagText
  named : String → Option String → FlagText

-- The name up to the first "=", and what is behind it.
unfoldable pub split_value : String → String × Option String
split_value String.[] = (String.[], none)
split_value (String.◌∷◌ c text) =
    let rest = split_value text in
    if code c == 0x3d then (String.[], some text) else (String.◌∷◌ c rest.0, rest.1)

unfoldable pub flag_name : String → FlagText
unfolding split_value
flag_name String.[] = bad_syntax
flag_name (String.◌∷◌ c text) =
    let parts = split_value (String.◌∷◌ c text) in
    if code c == 0x2d || code c == 0x3d then bad_syntax else named parts.0 parts.1

unfoldable pub flag_text : String → FlagText
unfolding flag_name
flag_text String.[] = no_flag
flag_text (String.◌∷◌ c String.[]) = no_flag
flag_text (String.◌∷◌ c (String.◌∷◌ d text)) =
    if code c == 0x2d
    then if code d == 0x2d
      then if str_eq text "" then end_of_flags else flag_name text
      else flag_name (String.◌∷◌ d text)
    else no_flag

abbrev pub unknown_flag : String → FlagError
unknown_flag name = if str_eq name "help" || str_eq name "h" then help_requested else flag_refused

-- `find` gives the flag of a name: its Set, with none for a value it refuses. The Option is the flag that waits for the next
-- argument. What is left is fs.Args.
unfoldable pub parse_flags :
    {V : Type 0}
    → (String → Option (String → V → Option V))
    → Option (String → V → Option V)
    → V
    → List String
    → Result FlagError (V × List String)
unfolding flag_text
parse_flags find none v [] = ok (v, [])
parse_flags find (some set) v [] = err flag_refused
parse_flags find (some set) v (a ∷ args) = elim (set a v) [
  | none ↦ err flag_refused
  | some v' ↦ parse_flags find none v' args
]
parse_flags find none v (a ∷ args) = elim (flag_text a) [
  | no_flag ↦ ok (v, a ∷ args)
  | end_of_flags ↦ ok (v, args)
  | bad_syntax ↦ err flag_refused
  | named name value ↦ elim (find name) [
    | none ↦ err (unknown_flag name)
    | some set ↦ elim value [
      | none ↦ parse_flags find (some set) v args
      | some text ↦ elim (set text v) [
        | none ↦ err flag_refused
        | some v' ↦ parse_flags find none v' args
      ]
    ]
  ]
]
