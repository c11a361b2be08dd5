-- ===== src/Cron.antt =====
-- internal/cron/cron.go: the schedules and their next fires, and the fields of a spec. A token is its
-- bytes; a field's 64 bits are the list of those that are set.
pub mod Fields
pub mod Bits
pub mod Every
pub mod Scan
pub mod Spec
pub mod Specs
mod Tests
use drover.Prelude.{
  ℕ, zero, suc, ◌+◌, ◌-◌, ◌*◌, ◌/◌, ◌%◌, Bool, true, false, not, ◌&&◌, ◌||◌, List, [], ◌∷◌, ltb,
  ◌==◌, if◌then◌else◌,
}
use drover.Driver.{Time}

abbrev pub minute : ℕ
minute = 60_000_000_000

abbrev pub max_scan_minutes : ℕ
max_scan_minutes = 5 * 366 * 24 * 60

abbrev pub Field : Type 0
Field = List ℕ

abbrev pub among : ℕ → Field → Bool
among v [] = false
among v (b ∷ bs) = v == b || among v bs

-- A value is never negative here.
unfoldable pub has : Field → ℕ → Bool
has f v = if ltb 63 v then false else among v f

-- The readings of an instant in the schedule's location.
pub record Civil : Type 0 where
  pub year : ℕ
  pub month : ℕ
  pub day : ℕ
  pub hour : ℕ
  pub minute : ℕ
  pub weekday : ℕ

-- The time package at that location: the readings of an instant, and time.Date at a minute's start.
pub record Calendar : Type 0 where
  pub civil : Time → Civil
  pub date : Civil → Time

pub record CronSchedule : Type 0 where
  pub minute : Field
  pub hour : Field
  pub dom : Field
  pub month : Field
  pub dow : Field
  pub dom_star : Bool
  pub dow_star : Bool

unfoldable pub matches : CronSchedule → Civil → Bool
unfolding has
matches s c =
    if not (has s.minute c.minute) || not (has s.hour c.hour) || not (has s.month c.month)
    then false
    else let dom = has s.dom c.day in
      let dow = has s.dow c.weekday in
      if not s.dom_star && not s.dow_star then dom || dow else dom && dow

-- Next's loop, with `n` minutes left to try; past the bound it is the zero time.
unfoldable pub scan : (Time → Bool) → ℕ → Time → Time
scan on zero t = 0
scan on (suc n) t = let rest = scan on n (t + minute) in if on t then t else rest

unfoldable pub cron_next : Calendar → CronSchedule → Time → Time
unfolding scan matches
cron_next cal s t =
    scan (λ u. matches s (cal.civil u)) max_scan_minutes (cal.date (cal.civil t) + minute)

-- The correction loop of everySchedule.Next, on fuel.
unfoldable pub advance : ℕ → ℕ → Time → Time → Time
advance zero d t next = next
advance (suc n) d t next = let rest = advance n d t (next + d) in if ltb t next then next else rest

-- Truncate rounds down to a multiple of the duration since the zero time.
unfoldable pub every_next : ℕ → Time → Time
unfolding advance
every_next d t = advance (t + 1) d t (t / d * d + d)
