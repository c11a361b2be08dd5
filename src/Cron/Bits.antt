-- ===== src/Cron/Bits.antt =====
-- Which bits the fields of a spec can have.
use drover.Prelude.{
  ℕ, zero, suc, ◌+◌, ◌*◌, ◌^◌, ◌≡◌, refl, ◌≢◌, ◌≤◌, ◌<◌, ◌⊎◌, inl, inr, Bool, true, ◌&&◌, List, [],
  ◌∷◌, Option, none, some, arith, ltb, leb, ◌==◌, Bool-cases, Option-cases, Result, ok, err,
  Result-cases, ℤ, All, ap, ◌∙◌, subst,
}
use drover.Driver.{Bytes}
use drover.Cron.{Field, among}
use drover.Cron.Fields.{
  FieldError, out_of_fuel, negative_shift, empty_field, no_valid_values, comma, slash, dash, cut,
  split_on, atoi, bytes_eq, star, checked_range, parse_range, bit_of, fill, parse_step, add_part,
  add_parts, parse_field,
}

module _ (low high : ℕ) (wrap7 : Bool) where
  -- A bit within the field's range, or bit 0 for the seventh day.
  abbrev pub Allowed : ℕ → Type 0
  Allowed b = ((low ≤ b) × (b ≤ high)) ⊎ ((wrap7 ≡ true) × (b ≡ 0))

  -- What the loop makes of the bits `f` from the value `v` on: it keeps them, and it sets the bit of
  -- every step up to the end and no bit that is not allowed.
  abbrev pub Filled : ℕ → ℕ → ℕ → Field → Result FieldError Field → Type 0
  Filled v end step f (ok g) =
      All Allowed g
      × ((b : ℕ) → among b f ≡ true → among b g ≡ true)
      × ((j : ℕ) → v + j * step ≤ end → among (bit_of wrap7 (v + j * step)) g ≡ true)
  Filled v end step f (err e) = (e ≡ negative_shift) × (2 ^ 63 ≤ end + step)

  bit_of-Allowed : (v : ℕ) → low ≤ v → v ≤ high → Allowed (bit_of wrap7 v)
  bit_of-Allowed v a b = elim (Bool-cases (wrap7 && v == 7)) [
    | inl e ↦ inr (ground arith)
    | inr e ↦ inl (ground arith)
  ]

  Filled-step :
      (v end step : ℕ) (f : Field) (r : Result FieldError Field)
      → Filled (v + step) end step (bit_of wrap7 v ∷ f) r
      → Filled v end step f r
  Filled-step v end step f (err e) h = h
  Filled-step v end step f (ok g) (allowed, kept, set) =
      (allowed, (λ b h. kept b (ground arith)), hits)
    where
      hits : (j : ℕ) → v + j * step ≤ end → among (bit_of wrap7 (v + j * step)) g ≡ true
      hits zero h =
          ap (λ x. among (bit_of wrap7 x) g) (omega arith) ∙ kept (bit_of wrap7 v) (ground arith)
      hits (suc j) h =
          let next : v + suc j * step ≡ v + step + j * step = grind arith in
          ap (λ x. among (bit_of wrap7 x) g) next ∙ set j (omega arith)

  -- The loop over a range always ends, and it sets exactly what Filled says. It panics at most where the
  -- step is so great that the last value and the step together pass the greatest int.
  pub fill-Filled :
      (n v end step : ℕ) (f : Field)
      → low ≤ v
      → end ≤ high
      → end < v + n
      → 0 < step
      → All Allowed f
      → Filled v end step f (fill (suc n) v end step wrap7 f)
  unfolding fill
  fill-Filled zero v end step f lo hi fuel p a =
      let past : ltb end v ≡ true = ground arith in
      rw past (a, (λ b h. h), λ j h. absurd (ground arith))
  fill-Filled (suc n) v end step f lo hi fuel p a = elim (Bool-cases (ltb end v)) [
    | inl past ↦ rw past (a, (λ b h. h), λ j h. absurd (ground arith))
    | inr within ↦ elim (Bool-cases (leb (2 ^ 63) (v + step))) [
      | inl over ↦ rw (within, over) (refl, ground arith)
      | inr fits ↦
          rw (within, fits)
            (Filled-step v end step f _ (
              fill-Filled n (v + step) end step (bit_of wrap7 v ∷ f) (omega arith) hi (omega arith)
                p (bit_of-Allowed v lo (ground arith), a)))
    ]
  ]

  checked_range-bounds :
      (start end : ℤ) (r : ℕ × ℕ)
      → checked_range low high start end ≡ ok r
      → (low ≤ r.0) × (r.1 ≤ high)
  unfolding checked_range
  checked_range-bounds start end r h = ground arith

  parse_range-bounds :
      (tok : Bytes) (r : ℕ × ℕ)
      → parse_range tok low high ≡ ok r
      → low ≤ high
      → (low ≤ r.0) × (r.1 ≤ high)
  unfolding parse_range
  parse_range-bounds tok r h le = elim (Bool-cases (bytes_eq tok star)) [
    | inl e ↦ ground arith
    | inr e ↦ elim (Option-cases (atoi (cut dash tok).0)) [
      | inl n ↦ absurd (ground arith)
      | inr (start, s) ↦ elim (Option-cases (cut dash tok).1) [
        | inl n ↦ checked_range-bounds start start r (ground arith)
        | inr (until, u) ↦ elim (Option-cases (atoi until)) [
          | inl n ↦ absurd (ground arith)
          | inr (end, t) ↦ checked_range-bounds start end r (ground arith)
        ]
      ]
    ]
  ]

  parse_step-positive : (tok : Option Bytes) (n : ℕ) → parse_step tok ≡ ok n → 0 < n
  unfolding parse_step
  parse_step-positive none n h = ground arith
  parse_step-positive (some tok) n h = ground arith

  parse_step-fuel : (tok : Option Bytes) → parse_step tok ≢ err out_of_fuel
  unfolding parse_step
  parse_step-fuel none h = absurd (ground arith)
  parse_step-fuel (some tok) h = absurd (ground arith)

  parse_range-fuel : (tok : Bytes) → parse_range tok low high ≢ err out_of_fuel
  unfolding parse_range checked_range
  parse_range-fuel tok h = absurd (ground arith)

  -- A field within its range, or an error that is not the model's own.
  abbrev pub Sound : Result FieldError Field → Type 0
  Sound (ok g) = All Allowed g
  Sound (err e) = e ≢ out_of_fuel

  Filled-Sound :
      (v end step : ℕ) (f : Field) (r : Result FieldError Field) → Filled v end step f r → Sound r
  Filled-Sound v end step f (ok g) h = h.0
  Filled-Sound v end step f (err e) h = λ bad. absurd (ground arith)

  add_part-Sound :
      (f : Field) (part : Bytes)
      → low ≤ high
      → All Allowed f
      → Sound (add_part low high wrap7 f part)
  unfolding add_part
  add_part-Sound f part le a = elim (Result-cases (parse_step (cut slash part).1)) [
    | inr (e, s) ↦ rw (s, add_part) (λ bad. parse_step-fuel (cut slash part).1 (s ∙ ap err bad))
    | inl (step, s) ↦ elim (Result-cases (parse_range (cut slash part).0 low high)) [
      | inr (e, r) ↦
          rw (s, r, add_part) (λ bad. parse_range-fuel (cut slash part).0 (r ∙ ap err bad))
      | inl (range, r) ↦
          let (lo, hi) = parse_range-bounds (cut slash part).0 range r le in
          rw (s, r, add_part)
            (Filled-Sound range.0 range.1 step f _ (
              fill-Filled (range.1 + 1) range.0 range.1 step f lo hi (omega arith)
                (parse_step-positive (cut slash part).1 step s) a))
    ]
  ]

  add_parts-Sound :
      (f : Field) (parts : List Bytes)
      → low ≤ high
      → All Allowed f
      → Sound (add_parts low high wrap7 f parts)
  unfolding add_parts
  add_parts-Sound f [] le a = a
  add_parts-Sound f ([] ∷ parts) le a = λ h. absurd (ground arith)
  add_parts-Sound f ((b ∷ part) ∷ parts) le a =
      elim (Result-cases (add_part low high wrap7 f (b ∷ part))) [
        | inl (g, e) ↦
            rw (e, add_parts)
              (add_parts-Sound g parts le (subst Sound e (add_part-Sound f (b ∷ part) le a)))
        | inr (w, e) ↦ rw (e, add_parts) (subst Sound e (add_part-Sound f (b ∷ part) le a))
      ]

  -- Whatever the token, parsing a field ends, and a field that is accepted has at least one bit and no bit
  -- outside its range, but for bit 0 where 7 stands for Sunday.
  pub parse_field-Sound :
      (tok : Bytes)
      → low ≤ high
      → ((g : Field) × (parse_field tok low high wrap7 ≡ ok g) × (g ≢ []) × All Allowed g)
        ⊎ ((e : FieldError) × (parse_field tok low high wrap7 ≡ err e) × (e ≢ out_of_fuel))
  unfolding parse_field
  parse_field-Sound [] le = inr (empty_field, refl, λ h. absurd (ground arith))
  parse_field-Sound (b ∷ tok) le =
      elim (Result-cases (add_parts low high wrap7 [] (split_on comma (b ∷ tok)))) [
        | inr (e, f) ↦ inr (
          e,
          rw (f, parse_field) refl,
          subst Sound f (add_parts-Sound [] (split_on comma (b ∷ tok)) le tt),
        )
        | inl (g, f) ↦
            kept g f (subst Sound f (add_parts-Sound [] (split_on comma (b ∷ tok)) le tt))
      ]
    where
      kept :
          (g : Field)
          → add_parts low high wrap7 [] (split_on comma (b ∷ tok)) ≡ ok g
          → All Allowed g
          → ((g : Field) × (parse_field (b ∷ tok) low high wrap7 ≡ ok g) × (g ≢ []) × All Allowed g)
            ⊎ ((e : FieldError) × (parse_field (b ∷ tok) low high wrap7 ≡ err e)
                × (e ≢ out_of_fuel))
      kept [] f a = inr (no_valid_values, rw (f, parse_field) refl, λ h. absurd (ground arith))
      kept (v ∷ vs) f a = inl (v ∷ vs, rw (f, parse_field) refl, (λ h. absurd (ground arith)), a)
