-- ===== src/Periodic/Checked.antt =====
-- checkedPeriodicJobs of periodic.go: the periodic jobs of a configuration with their parsed schedules.
use drover.Prelude.{
  ℕ, ◌+◌, String, List, [], ◌∷◌, Option, none, some, str_eq, if◌then◌else◌, Result, ok, err,
}
use drover.Driver.{Bytes}
use drover.Stats.Maps.{lookup, assign}
use drover.Cron.Spec.{Schedule, SpecError}

-- `kind` is Args.Kind(), with none for nil Args; the other options of a job do not matter here.
pub record PeriodicJob : Type 0 where
  pub id : String
  pub cron : Bytes
  pub kind : Option String

-- The panics, at an index.
pub data PeriodicPanic : Type 0 where
  empty_id nil_args empty_job_kind : ℕ → PeriodicPanic
  duplicate_id : ℕ → ℕ → PeriodicPanic
  invalid_cron : ℕ → SpecError → PeriodicPanic

module _ (parse_in : Bytes → Result SpecError Schedule) where
  -- The checks of one job, with the ids that came before it.
  unfoldable pub check_periodic :
      ℕ → List (String × ℕ) → PeriodicJob → Result PeriodicPanic Schedule
  unfolding lookup
  check_periodic i seen job =
      if str_eq job.id "" then err (empty_id i) else elim (lookup str_eq job.id seen) [
        | some prev ↦ err (duplicate_id i prev)
        | none ↦ elim job.kind [
          | none ↦ err (nil_args i)
          | some kind ↦
              if str_eq kind "" then err (empty_job_kind i) else elim (parse_in job.cron) [
                | err e ↦ err (invalid_cron i e)
                | ok schedule ↦ ok schedule
              ]
        ]
      ]

  unfoldable pub check_periodic_from :
      ℕ
      → List (String × ℕ)
      → List PeriodicJob
      → Result PeriodicPanic (List (PeriodicJob × Schedule))
  unfolding check_periodic assign
  check_periodic_from i seen [] = ok []
  check_periodic_from i seen (job ∷ jobs) = elim (check_periodic i seen job) [
    | err p ↦ err p
    | ok schedule ↦ elim (check_periodic_from (i + 1) (assign str_eq job.id i seen) jobs) [
      | err p ↦ err p
      | ok entries ↦ ok ((job, schedule) ∷ entries)
    ]
  ]

  unfoldable pub checked_periodic_jobs :
      List PeriodicJob → Result PeriodicPanic (List (PeriodicJob × Schedule))
  unfolding check_periodic_from
  checked_periodic_jobs jobs = check_periodic_from 0 [] jobs
