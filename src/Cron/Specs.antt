-- ===== src/Cron/Specs.antt =====
-- What an accepted spec stands for.
use drover.Prelude.{
  ℕ, zero, suc, ◌≡◌, refl, ◌≢◌, ◌≤◌, ◌<◌, inl, inr, Bool, true, false, List, [], ◌∷◌, Option, none,
  some, Result, ok, err, ◌>>=◌, ℤ, pos, negsuc, arith, All, Bool-cases, subst,
}
use drover.Driver.{Bytes}
use drover.Cron.{Field}
use drover.Cron.Fields.{FieldError, parse_field, bytes_eq}
use drover.Cron.Bits.{Allowed, parse_field-Sound}
use drover.Cron.Spec.{
  Schedule, cron_schedule, every_schedule, SpecError, in_field, words, every_word, parse_five,
  parse_every, parse_fields, parse_in, bad_minute, bad_hour, bad_dom, bad_month, bad_dow,
  join_words,
}

-- A field has a value, and only values from `low` to `high`, or 0 for the seventh day of the week.
abbrev pub Filled : ℕ → ℕ → Bool → Field → Type 0
Filled low high wrap7 f = (f ≢ []) × All (Allowed low high wrap7) f

abbrev pub WellFormed : Schedule → Type 0
WellFormed (cron_schedule c) =
    Filled 0 59 false c.minute
    × Filled 0 23 false c.hour
    × Filled 1 31 false c.dom
    × Filled 1 12 false c.month
    × Filled 0 7 true c.dow
WellFormed (every_schedule d) = 0 < d

bind_ok :
    {E A B : Type 0} (m : Result E A) (f : A → Result E B) (b : B)
    → (m >>= f) ≡ ok b
    → (a : A) × (m ≡ ok a) × (f a ≡ ok b)
bind_ok (ok a) f b h = (a, refl, h)
bind_ok (err e) f b h = cc

ok_injective : {E A : Type 0} (a b : A) → ◌≡◌ {A = Result E A} (ok a) (ok b) → a ≡ b
ok_injective a b h = cc

in_field-Filled :
    (wrap : FieldError → SpecError) (tok : Bytes) (low high : ℕ) (wrap7 : Bool) (f : Field)
    → low ≤ high
    → in_field wrap (parse_field tok low high wrap7) ≡ ok f
    → Filled low high wrap7 f
in_field-Filled wrap tok low high wrap7 f le h = elim (parse_field-Sound low high wrap7 tok le) [
  | inl (g, e, some_value, all) ↦
      let same : ok g ≡ ok f = rw e at h in subst (Filled low high wrap7) (cc) (some_value, all)
  | inr (e, bad, fuel) ↦ absurd (ground arith)
]

parse_five-WellFormed :
    (fields : List Bytes) (s : Schedule) → parse_five fields ≡ ok s → WellFormed s
unfolding parse_five
parse_five-WellFormed (a ∷ b ∷ c ∷ d ∷ e ∷ []) s h =
    let (minute, m, h₁) = bind_ok (in_field bad_minute (parse_field a 0 59 false)) _ s h in
    let (hour, n, h₂) = bind_ok (in_field bad_hour (parse_field b 0 23 false)) _ s h₁ in
    let (dom, o, h₃) = bind_ok (in_field bad_dom (parse_field c 1 31 false)) _ s h₂ in
    let (month, p, h₄) = bind_ok (in_field bad_month (parse_field d 1 12 false)) _ s h₃ in
    let (dow, q, h₅) = bind_ok (in_field bad_dow (parse_field e 0 7 true)) _ s h₄ in
    subst WellFormed (ok_injective _ s h₅) (
      in_field-Filled bad_minute a 0 59 false minute (omega arith) m,
      in_field-Filled bad_hour b 0 23 false hour (omega arith) n,
      in_field-Filled bad_dom c 1 31 false dom (omega arith) o,
      in_field-Filled bad_month d 1 12 false month (omega arith) p,
      in_field-Filled bad_dow e 0 7 true dow (omega arith) q,
    )
parse_five-WellFormed [] s h = absurd (ground arith)
parse_five-WellFormed (a ∷ []) s h = absurd (ground arith)
parse_five-WellFormed (a ∷ b ∷ []) s h = absurd (ground arith)
parse_five-WellFormed (a ∷ b ∷ c ∷ []) s h = absurd (ground arith)
parse_five-WellFormed (a ∷ b ∷ c ∷ d ∷ []) s h = absurd (ground arith)
parse_five-WellFormed (a ∷ b ∷ c ∷ d ∷ e ∷ f ∷ rest) s h = absurd (ground arith)

parse_every-WellFormed :
    (parse_duration : Bytes → Option ℤ) (ws : List Bytes) (s : Schedule)
    → parse_every parse_duration ws ≡ ok s
    → WellFormed s
unfolding parse_every
parse_every-WellFormed parse_duration [] s h = absurd (ground arith)
parse_every-WellFormed parse_duration (w ∷ ws) s h =
    read (parse_duration (join_words (w ∷ ws))) refl
  where
    read : (o : Option ℤ) → parse_duration (join_words (w ∷ ws)) ≡ o → WellFormed s
    read none e = absurd (ground arith)
    read (some (pos zero)) e = absurd (ground arith)
    read (some (negsuc d)) e = absurd (ground arith)
    read (some (pos (suc d))) e =
        let same : every_schedule (suc d) ≡ s = ground arith in subst WellFormed same (omega arith)

parse_fields-WellFormed :
    (parse_duration : Bytes → Option ℤ) (ws : List Bytes) (s : Schedule)
    → parse_fields parse_duration ws ≡ ok s
    → WellFormed s
unfolding parse_fields
parse_fields-WellFormed parse_duration [] s h = absurd (ground arith)
parse_fields-WellFormed parse_duration (w ∷ ws) s h = elim (Bool-cases (bytes_eq w every_word)) [
  | inl e ↦ parse_every-WellFormed parse_duration ws s (rw e at h)
  | inr e ↦ parse_five-WellFormed (w ∷ ws) s (rw e at h)
]

-- A spec that ParseIn accepts gives a schedule that can be asked for its next fire: each of its fields has a value
-- and only values of its range, or its duration is positive.
pub parse_in-WellFormed :
    (parse_duration : Bytes → Option ℤ) (spec : Bytes) (s : Schedule)
    → parse_in parse_duration spec ≡ ok s
    → WellFormed s
unfolding parse_in
parse_in-WellFormed parse_duration spec s h =
    parse_fields-WellFormed parse_duration (words spec) s h
