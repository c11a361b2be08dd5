-- ===== src/Cron/Tests.antt =====
-- Fires at concrete instants, and fields of concrete tokens.
use drover.Prelude.{
  ℕ, ◌+◌, ◌-◌, ◌*◌, ◌/◌, ◌%◌, ◌^◌, ◌≡◌, refl, ◌≤◌, ◌<◌, ◌⊎◌, true, false, [], ◌∷◌, arith, ltb,
  if◌then◌else◌, ok, err,
}
use drover.Driver.{Time, Bytes}
use drover.Cron.{
  Civil, Calendar, CronSchedule, minute, max_scan_minutes, has, matches, cron_next, every_next,
}
use drover.Cron.Fields.{
  negative_shift, fill, cut, parse_step, parse_range, atoi, number, digits, positive, bytes_eq,
  split_on, add_part, add_parts, parse_field,
}
use drover.Cron.Every.{every_next_lem}
use drover.Cron.Scan.{cron_next-first, cron_next-early}

every_next_lem_example :
    (100 < every_next 7 100) × (every_next 7 100 ≤ 107) × (every_next 7 100 ≡ (100 / 7 + 1) * 7)
every_next_lem_example = every_next_lem 7 100 (omega arith)

-- Minutes of a day whose second hour is repeated: after 1:59 the clocks show 1:00 again.
abbrev wall : ℕ → ℕ
wall m = if ltb m 120 then m else m - 60

abbrev reading : ℕ → Civil
reading w = record { year = 1; month = 1; day = 1; hour = w / 60; minute = w % 60; weekday = 1 }

-- An ambiguous reading is taken for the first of its two instants.
abbrev instant : Civil → ℕ
instant c = let w = c.hour * 60 + c.minute in if ltb w 120 then w else w + 60

abbrev clock : Calendar
clock = record { civil = λ t. reading (wall (t / minute)); date = λ c. instant c * minute }

abbrev six_past : CronSchedule
six_past = record {
  minute = 6 ∷ [];
  hour = 1 ∷ [];
  dom = 1 ∷ [];
  month = 1 ∷ [];
  dow = 1 ∷ [];
  dom_star = true;
  dow_star = true;
}

cron_next-first_example :
    let begin = clock.date (clock.civil 5) + minute in
    ((k : ℕ) × (k < max_scan_minutes)
      × (cron_next clock six_past 5 ≡ begin + k * minute)
      × (5 < cron_next clock six_past 5)
      × (matches six_past (clock.civil (begin + k * minute)) ≡ true)
      × ((j : ℕ) → j < k → matches six_past (clock.civil (begin + j * minute)) ≡ false))
    ⊎ ((cron_next clock six_past 5 ≡ 0)
        × ((j : ℕ)
            → j < max_scan_minutes
            → matches six_past (clock.civil (begin + j * minute)) ≡ false))
cron_next-first_example = cron_next-first clock six_past 5 (omega arith) (omega arith)

-- At 1:05 the second time, the next 1:06 that it finds is the first one.
abbrev again : Time
again = 125 * minute

cron_next-early_example : cron_next clock six_past again ≤ again
cron_next-early_example =
    cron_next-early clock six_past again (omega arith) (unfold matches has in refl)

-- 1-5,7
abbrev weekend : Bytes
weekend = 0x31 ∷ 0x2d ∷ 0x35 ∷ 0x2c ∷ 0x37 ∷ []

weekend_bits : parse_field weekend 0 7 true ≡ ok (0 ∷ 5 ∷ 4 ∷ 3 ∷ 2 ∷ 1 ∷ [])
unfolding parse_field split_on add_parts add_part cut parse_step parse_range bytes_eq atoi number
    digits positive fill
weekend_bits = refl

-- From 1 in steps of 2^63 - 1 the second value is negative.
overflow : fill 33 1 31 (2 ^ 63 - 1) false [] ≡ err negative_shift
unfolding fill
overflow = refl
