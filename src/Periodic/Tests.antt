-- ===== src/Periodic/Tests.antt =====
-- A configured job, and a turn over a schedule that fires every ten nanoseconds, on a store that lists the fires it was given.
use drover.Prelude.{
  ℕ, refl, ok, err, map, Option, ℤ, pos, ◌≡◌, ◌<◌, ◌⊎◌, inr, Bool, true, false, List, [], ◌∷◌, ◌++◌,
  some, arith, ◌==◌, if◌then◌else◌,
}
use drover.Driver.{Time, Bytes}
use drover.Stats.Maps.{lookup}
use drover.Cron.Fields.{bytes_eq}
use drover.Cron.Spec.{Schedule, every_schedule, every_word, words, parse_in}
use drover.Periodic.Checked.{PeriodicJob, PeriodicPanic, checked_periodic_jobs}
use drover.Periodic.Schedulable.{Valid, Scheduled, checked_periodic_jobs-Scheduled}
use drover.Cron.{every_next}
use drover.Cron.Every.{every_next_lem}
use drover.Periodic.Turns.{Entry, Scheduler, schedule_turn, watched}
use drover.Periodic.Waits.{EachNext, InTime, schedule_turn-waits}

abbrev ten : Time → Time
ten t = every_next 10 t

-- The fire at 30 is refused.
abbrev insert_tick : Time → List Time → List Time × Bool
insert_tick t s = if t == 30 then (s, false) else (s ++ t ∷ [], true)

abbrev never : Time → Bool
never t = false

ten_later : (u : Time) → (ten u ≡ 0) ⊎ (u < ten u)
ten_later u = inr (every_next_lem 10 u (omega arith)).0

abbrev tens : Entry (List Time)
tens = record { next = ten; insert_tick = insert_tick }

abbrev newcomer : Scheduler
newcomer = record { was_leader = false; last_fires = [] }

-- The leader gained the lock at 5, and the tick at 30 is refused.
schedule_turn-waits_example :
    (lasts : List Time) × (s' : List Time) × (w : ℕ) × (schedule_turn never 1000
        (tens ∷ [])
        47
        (ok true)
        5
        45
        newcomer
        []
      ≡ some (record { was_leader = true; last_fires = lasts }, s', w))
    × EachNext (InTime 45 w) (watched (tens ∷ []) 5 newcomer) lasts
schedule_turn-waits_example =
    schedule_turn-waits never 1000 (tens ∷ []) 5 45 newcomer [] (ten_later, tt)

-- "@every 1h".
abbrev hourly : PeriodicJob
hourly = record {
  id = "hourly-digest";
  cron = every_word ++ 0x20 ∷ 0x31 ∷ 0x68 ∷ [];
  kind = some "send_welcome_email";
}

abbrev an_hour : Bytes → Option ℤ
an_hour text = some (pos 3_600_000_000_000)

hourly_checked :
    checked_periodic_jobs (parse_in an_hour) (hourly ∷ [])
    ≡ ok ((hourly, every_schedule 3_600_000_000_000) ∷ [])
unfolding checked_periodic_jobs parse_in lookup bytes_eq words
hourly_checked = refl

checked_periodic_jobs-Scheduled_example :
    ((entries : List (PeriodicJob × Schedule)) × (checked_periodic_jobs
          (parse_in an_hour)
          (hourly ∷ hourly ∷ [])
        ≡ ok entries)
      × Valid (parse_in an_hour) (hourly ∷ hourly ∷ [])
      × (map (λ e. e.0) entries ≡ hourly ∷ hourly ∷ [])
      × Scheduled an_hour entries)
    ⊎ ((p : PeriodicPanic) × (checked_periodic_jobs (parse_in an_hour) (hourly ∷ hourly ∷ [])
          ≡ err p)
        × (¬ Valid (parse_in an_hour) (hourly ∷ hourly ∷ [])))
checked_periodic_jobs-Scheduled_example =
    checked_periodic_jobs-Scheduled an_hour (hourly ∷ hourly ∷ [])
