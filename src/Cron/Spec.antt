-- ===== src/Cron/Spec.antt =====
-- ParseIn and parseEvery of cron.go: a spec of five fields, or an @every duration. time.ParseDuration is the
-- parameter `parse_duration`, with none for an error; the location is the calendar that a schedule is asked with.
use drover.Prelude.{
  ℕ, zero, suc, Bool, true, false, ◌||◌, ◌&&◌, List, [], ◌∷◌, ◌++◌, Option, none, some, leb, ◌==◌,
  if◌then◌else◌, length, Result, ok, err, ◌>>=◌, ℤ, pos, negsuc,
}
use drover.Driver.{Bytes}
use drover.Cron.{Field, CronSchedule}
use drover.Cron.Fields.{FieldError, parse_field, bytes_eq, star}

pub data Schedule : Type 0 where
  cron_schedule : CronSchedule → Schedule
  every_schedule : ℕ → Schedule

pub data SpecError : Type 0 where
  wants_five : ℕ → SpecError
  bad_minute bad_hour bad_dom bad_month bad_dow : FieldError → SpecError
  empty_duration bad_duration nonpositive_duration : SpecError

-- The spaces of unicode.IsSpace below 0x80.
abbrev pub is_space : ℕ → Bool
is_space b = b == 0x20 || (leb 0x09 b && leb b 0x0d)

abbrev pub begin_word : ℕ → List Bytes → List Bytes
begin_word b [] = (b ∷ []) ∷ []
begin_word b (w ∷ ws) = (b ∷ w) ∷ ws

-- strings.Fields.
unfoldable pub words : Bytes → List Bytes
words [] = []
words (b ∷ []) = if is_space b then [] else (b ∷ []) ∷ []
words (b ∷ c ∷ bs) =
    let rest = words (c ∷ bs) in
    if is_space b then rest else if is_space c then (b ∷ []) ∷ rest else begin_word b rest

-- strings.Join with a space between.
unfoldable pub join_words : List Bytes → Bytes
join_words [] = []
join_words (w ∷ []) = w
join_words (w ∷ v ∷ ws) = w ++ 0x20 ∷ join_words (v ∷ ws)

-- "@every".
abbrev pub every_word : Bytes
every_word = 0x40 ∷ 0x65 ∷ 0x76 ∷ 0x65 ∷ 0x72 ∷ 0x79 ∷ []

abbrev pub in_field : (FieldError → SpecError) → Result FieldError Field → Result SpecError Field
in_field wrap (ok f) = ok f
in_field wrap (err e) = err (wrap e)

unfoldable pub parse_five : List Bytes → Result SpecError Schedule
unfolding parse_field bytes_eq
parse_five (a ∷ b ∷ c ∷ d ∷ e ∷ []) = do
  minute ← in_field bad_minute (parse_field a 0 59 false)
  hour ← in_field bad_hour (parse_field b 0 23 false)
  dom ← in_field bad_dom (parse_field c 1 31 false)
  month ← in_field bad_month (parse_field d 1 12 false)
  dow ← in_field bad_dow (parse_field e 0 7 true)
  ok (
      cron_schedule (record {
        minute = minute;
        hour = hour;
        dom = dom;
        month = month;
        dow = dow;
        dom_star = bytes_eq c star;
        dow_star = bytes_eq e star;
      }))
parse_five fields = err (wants_five (length fields))

unfoldable pub parse_every : (Bytes → Option ℤ) → List Bytes → Result SpecError Schedule
unfolding join_words
parse_every parse_duration [] = err empty_duration
parse_every parse_duration (w ∷ ws) = elim (parse_duration (join_words (w ∷ ws))) [
  | none ↦ err bad_duration
  | some (pos zero) ↦ err nonpositive_duration
  | some (pos (suc d)) ↦ ok (every_schedule (suc d))
  | some (negsuc d) ↦ err nonpositive_duration
]

unfoldable pub parse_fields : (Bytes → Option ℤ) → List Bytes → Result SpecError Schedule
unfolding bytes_eq parse_every parse_five
parse_fields parse_duration [] = err (wants_five 0)
parse_fields parse_duration (w ∷ ws) =
    if bytes_eq w every_word then parse_every parse_duration ws else parse_five (w ∷ ws)

unfoldable pub parse_in : (Bytes → Option ℤ) → Bytes → Result SpecError Schedule
unfolding words parse_fields
parse_in parse_duration spec = parse_fields parse_duration (words spec)
