-- ===== src/Cron/Scan.antt =====
-- The fires of a five-field schedule.
use drover.Prelude.{
  ℕ, zero, suc, ◌+◌, ◌*◌, ◌≡◌, refl, ◌≤◌, ◌<◌, ◌⊎◌, inl, inr, Bool, true, false, arith, Bool-cases,
  ap, sym, ◌∙◌,
}
use drover.Driver.{Time}
use drover.Cron.{minute, max_scan_minutes, Calendar, CronSchedule, matches, scan, cron_next}

-- The first of `n` minutes from `t` on at which the schedule matches, or none.
scan-first :
    (on : Time → Bool) (n : ℕ) (t : Time)
    → ((k : ℕ) × (k < n)
        × (scan on n t ≡ t + k * minute)
        × (on (t + k * minute) ≡ true)
        × ((j : ℕ) → j < k → on (t + j * minute) ≡ false))
      ⊎ ((scan on n t ≡ 0) × ((j : ℕ) → j < n → on (t + j * minute) ≡ false))
unfolding scan
scan-first on zero t = inr (refl, λ j h. absurd (omega arith))
scan-first on (suc n) t = elim (Bool-cases (on t)) [
  | inl e ↦
      inl (0, omega arith, rw e (omega arith), ap on (omega arith) ∙ e, λ j h. absurd (omega arith))
  | inr e ↦ elim (scan-first on n (t + minute)) [
    | inl (k, few, at, hit, before) ↦
        inl (suc k, omega arith, rw e (omega arith), ap on (omega arith) ∙ hit, earlier e k before)
    | inr (none_at, before) ↦ inr (rw e none_at, earlier e n before)
  ]
]
  where
    earlier :
        on t ≡ false
        → (k : ℕ) → ((j : ℕ) → j < k → on (t + minute + j * minute) ≡ false)
        → (j : ℕ) → j < suc k
        → on (t + j * minute) ≡ false
    earlier e k before zero h = ap on (omega arith) ∙ e
    earlier e k before (suc j) h = ap on (omega arith) ∙ before j (omega arith)

module _ (on : Time → Bool) (n : ℕ) (begin t : Time) where
  scan-after :
      t < begin
      → ((k : ℕ) × (k < n)
          × (scan on n begin ≡ begin + k * minute)
          × (t < scan on n begin)
          × (on (begin + k * minute) ≡ true)
          × ((j : ℕ) → j < k → on (begin + j * minute) ≡ false))
        ⊎ ((scan on n begin ≡ 0) × ((j : ℕ) → j < n → on (begin + j * minute) ≡ false))
  scan-after later = elim (scan-first on n begin) [
    | inl (k, few, at, hit, before) ↦ inl (k, few, at, omega arith, hit, before)
    | inr none_at ↦ inr none_at
  ]

  scan-early : begin ≤ t → on begin ≡ true → scan on n begin ≤ t
  scan-early back hit = elim (scan-first on n begin) [
    | inl (zero, few, at, _, before) ↦ omega arith
    | inl (suc k, few, at, _, before) ↦
        absurd (true_not_false (sym hit ∙ ap on (omega arith) ∙ before 0 (omega arith)))
    | inr (none_at, before) ↦ omega arith
  ]
    where
      true_not_false : true ≡ false → ⊥
      true_not_false e = cc

-- Where time.Date gives back the start of the minute that an instant reads as, the next fire of a
-- schedule is strictly after the instant, at a whole number of minutes from that start, matches the
-- schedule, and no minute between the two does; or it is the zero time and no minute within the bound
-- of five years matches.
pub cron_next-first :
    (cal : Calendar) (s : CronSchedule) (t : Time)
    → cal.date (cal.civil t) ≤ t
    → t < cal.date (cal.civil t) + minute
    → let begin = cal.date (cal.civil t) + minute in
      ((k : ℕ) × (k < max_scan_minutes)
        × (cron_next cal s t ≡ begin + k * minute)
        × (t < cron_next cal s t)
        × (matches s (cal.civil (begin + k * minute)) ≡ true)
        × ((j : ℕ) → j < k → matches s (cal.civil (begin + j * minute)) ≡ false))
      ⊎ ((cron_next cal s t ≡ 0)
          × ((j : ℕ) → j < max_scan_minutes → matches s (cal.civil (begin + j * minute)) ≡ false))
unfolding cron_next
cron_next-first cal s t lo hi =
    scan-after (λ u. matches s (cal.civil u)) max_scan_minutes (cal.date (cal.civil t) + minute) t
      hi

-- Where time.Date gives back an instant at least a minute before the one that it was read from, as in
-- the second pass of an hour that the clocks repeat, and the schedule matches the minute after it, the
-- next fire is not after the instant asked about.
pub cron_next-early :
    (cal : Calendar) (s : CronSchedule) (t : Time)
    → cal.date (cal.civil t) + minute ≤ t
    → matches s (cal.civil (cal.date (cal.civil t) + minute)) ≡ true
    → cron_next cal s t ≤ t
unfolding cron_next
cron_next-early cal s t back on =
    scan-early (λ u. matches s (cal.civil u)) max_scan_minutes (cal.date (cal.civil t) + minute) t
      back on
