-- ===== src/Periodic/Schedulable.antt =====
-- Which configurations of periodic jobs checkedPeriodicJobs lets pass.
use drover.Prelude.{
  ℕ, ◌+◌, ◌≡◌, refl, sym, ap, subst, ◌∙◌, ◌≢◌, ◌⊎◌, inl, inr, String, true, false, List, [], ◌∷◌,
  map, Option, none, some, str_eq, eq_iff, Result, ok, err, arith, All, Pairs, All-map, Bool-cases,
  Option-cases, Result-cases, ◌↔◌, ℤ,
}
use drover.Driver.{Bytes}
use drover.Stats.Maps.{lookup, assign, lookup-assign, true_not_false}
use drover.Stats.Wanted.{str_eq-Decides}
use drover.Cron.Specs.{WellFormed, parse_in-WellFormed}
use drover.Cron.Spec.{parse_in, Schedule, SpecError}
use drover.Periodic.Checked.{
  PeriodicJob, PeriodicPanic, empty_id, nil_args, empty_job_kind, duplicate_id, invalid_cron,
  check_periodic, check_periodic_from, checked_periodic_jobs,
}

module _ (read_spec : Bytes → Result SpecError Schedule) where
  -- A job that can be scheduled.
  pub record Sound (job : PeriodicJob) : Type 0 where
    pub named : str_eq job.id "" ≡ false
    pub kind : (k : String) × (job.kind ≡ some k) × (str_eq k "" ≡ false)
    pub parsed : (s : Schedule) × (read_spec job.cron ≡ ok s)

  abbrev pub Valid : List PeriodicJob → Type 0
  Valid jobs = All Sound jobs × Pairs (λ a b. a.id ≢ b.id) jobs

  abbrev Fresh : List (String × ℕ) → List PeriodicJob → Type 0
  Fresh seen jobs = All (λ (j : PeriodicJob). lookup str_eq j.id seen ≡ none) jobs

  -- What the checks of one job come to.
  abbrev CheckedOne : List (String × ℕ) → PeriodicJob → Result PeriodicPanic Schedule → Type 0
  CheckedOne seen job (ok s) =
      Sound job × (lookup str_eq job.id seen ≡ none) × (read_spec job.cron ≡ ok s)
  CheckedOne seen job (err p) = ¬ (Sound job × (lookup str_eq job.id seen ≡ none))

  check_periodic-CheckedOne :
      (i : ℕ) (seen : List (String × ℕ)) (job : PeriodicJob)
      → CheckedOne seen job (check_periodic read_spec i seen job)
  unfolding check_periodic
  check_periodic-CheckedOne i seen job = elim (Bool-cases (str_eq job.id "")) [
    | inl empty ↦
        comes_to (err (empty_id i)) (rw empty refl) (λ h. true_not_false (sym empty ∙ h.0.named))
    | inr named ↦ elim (Option-cases (lookup str_eq job.id seen)) [
      | inr (prev, e) ↦
          comes_to (err (duplicate_id i prev)) (rw (named, e) refl)
            (λ h. absurd (ground (arith, h.1)))
      | inl new ↦ elim (Option-cases job.kind) [
        | inl missing ↦
            comes_to (err (nil_args i)) (rw (named, new, missing) refl)
              (λ h. absurd (ground (arith, h.0.kind.1)))
        | inr (k, given) ↦ elim (Bool-cases (str_eq k "")) [
          | inl empty ↦
              comes_to (err (empty_job_kind i)) (rw (named, new, given, empty) refl)
                (λ h. kind_clash k given empty h.0.kind)
          | inr full ↦ elim (Result-cases (read_spec job.cron)) [
            | inr (e, bad) ↦
                comes_to (err (invalid_cron i e)) (rw (named, new, given, full, bad) refl)
                  (λ h. absurd (ground (arith, h.0.parsed.1)))
            | inl (sched, good) ↦ comes_to (ok sched) (rw (named, new, given, full, good) refl) (
              record { named = named; kind = (k, given, full); parsed = (sched, good) },
              new,
              good,
            )
          ]
        ]
      ]
    ]
  ]
    where
      comes_to :
          (r : Result PeriodicPanic Schedule)
          → check_periodic read_spec i seen job ≡ r
          → CheckedOne seen job r
          → CheckedOne seen job (check_periodic read_spec i seen job)
      comes_to r e h = subst (CheckedOne seen job) (sym e) h

      kind_clash :
          (k : String)
          → job.kind ≡ some k
          → str_eq k "" ≡ true
          → ((k' : String) × (job.kind ≡ some k') × (str_eq k' "" ≡ false))
          → ⊥
      kind_clash k given empty (k', given', full) =
          let same : k ≡ k' = cc in true_not_false (sym empty ∙ ap (λ t. str_eq t "") same ∙ full)

  -- What the checks of all jobs come to, after the ids of `seen`.
  abbrev CheckedAll :
      List (String × ℕ)
      → List PeriodicJob
      → Result PeriodicPanic (List (PeriodicJob × Schedule))
      → Type 0
  CheckedAll seen jobs (ok entries) =
      Valid jobs
      × Fresh seen jobs
      × (map (λ e. e.0) entries ≡ jobs)
      × All (λ (e : PeriodicJob × Schedule). read_spec e.0.cron ≡ ok e.1) entries
  CheckedAll seen jobs (err p) = ¬ (Valid jobs × Fresh seen jobs)

  fresh_one :
      (i : ℕ) (seen : List (String × ℕ)) (key id : String)
      → (lookup str_eq id (assign str_eq key i seen) ≡ none)
        ↔ ((key ≢ id) × (lookup str_eq id seen ≡ none))
  fresh_one i seen key id = elim (Bool-cases (str_eq key id)) [
    | inl same ↦ (
      (λ h. absurd (ground (arith, h, lookup-assign str_eq str_eq-Decides id key i seen))),
      λ h. absurd (h.0 ((eq_iff key id).0 same)),
    )
    | inr other ↦
        let law = lookup-assign str_eq str_eq-Decides id key i seen in
        (
          (λ h.
              ((λ e. true_not_false (sym ((eq_iff key id).1 e) ∙ other)), ground (arith, h, law))),
          λ h. ground (arith, h.1, law),
        )
  ]

  Fresh-assign :
      (i : ℕ) (seen : List (String × ℕ)) (key : String) (jobs : List PeriodicJob)
      → Fresh (assign str_eq key i seen) jobs
        ↔ (All (λ (b : PeriodicJob). key ≢ b.id) jobs × Fresh seen jobs)
  Fresh-assign i seen key [] = ((λ h. (tt, tt)), λ h. tt)
  Fresh-assign i seen key (job ∷ jobs) =
      let one = fresh_one i seen key job.id in
      let rest = Fresh-assign i seen key jobs in
      (
        (λ h. (((one.0 h.0).0, (rest.0 h.1).0), ((one.0 h.0).1, (rest.0 h.1).1))),
        λ h. (one.1 (h.0.0, h.1.0), rest.1 (h.0.1, h.1.1)),
      )

  check_periodic_from-CheckedAll :
      (i : ℕ) (seen : List (String × ℕ)) (jobs : List PeriodicJob)
      → CheckedAll seen jobs (check_periodic_from read_spec i seen jobs)
  unfolding check_periodic_from
  check_periodic_from-CheckedAll i seen [] = ((tt, tt), tt, refl, tt)
  check_periodic_from-CheckedAll i seen (job ∷ jobs) =
      after (check_periodic read_spec i seen job) (check_periodic-CheckedOne i seen job)
        (check_periodic_from read_spec (i + 1) (assign str_eq job.id i seen) jobs)
        (check_periodic_from-CheckedAll (i + 1) (assign str_eq job.id i seen) jobs)
    where
      after :
          (one : Result PeriodicPanic Schedule)
          → CheckedOne seen job one
          → (rest : Result PeriodicPanic (List (PeriodicJob × Schedule)))
          → CheckedAll (assign str_eq job.id i seen) jobs rest
          → CheckedAll seen (job ∷ jobs) (elim one [
            | err p ↦ err p
            | ok schedule ↦ elim rest [
              | err p ↦ err p
              | ok entries ↦ ok ((job, schedule) ∷ entries)
            ]
          ])
      after (err p) h rest hs = λ v. h (v.0.0.0, v.1.0)
      after (ok schedule) h (err p) hs =
          λ v. hs ((v.0.0.1, v.0.1.1), (Fresh-assign i seen job.id jobs).1 (v.0.1.0, v.1.1))
      after (ok schedule) (sound, new, parsed) (ok entries) (valid, fresh, same, all) =
          let (apart, old) = (Fresh-assign i seen job.id jobs).0 fresh in
          (((sound, valid.0), (apart, valid.1)), (new, old), ap (◌∷◌ job) same, (parsed, all))

  Fresh-nil : (jobs : List PeriodicJob) → Fresh [] jobs
  unfolding lookup
  Fresh-nil [] = tt
  Fresh-nil (job ∷ jobs) = (refl, Fresh-nil jobs)

-- Every entry has the schedule that its job's spec stands for, which can be asked for its next fire.
abbrev pub Scheduled : (Bytes → Option ℤ) → List (PeriodicJob × Schedule) → Type 0
Scheduled parse_duration entries =
    All
      (λ (e : PeriodicJob × Schedule). (parse_in parse_duration e.0.cron ≡ ok e.1) × WellFormed e.1)
      entries

-- A configuration of periodic jobs is taken exactly if every job has an id that no other has, arguments of a named
-- kind, and a spec that ParseIn accepts; and then each job is entered once, in order, with the schedule of its spec,
-- whose fields have values of their ranges only or whose duration is positive.
pub checked_periodic_jobs-Scheduled :
    (parse_duration : Bytes → Option ℤ) (jobs : List PeriodicJob)
    → ((entries : List (PeriodicJob × Schedule)) × (checked_periodic_jobs
            (parse_in parse_duration)
            jobs
          ≡ ok entries)
        × Valid (parse_in parse_duration) jobs
        × (map (λ e. e.0) entries ≡ jobs)
        × Scheduled parse_duration entries)
      ⊎ ((p : PeriodicPanic) × (checked_periodic_jobs (parse_in parse_duration) jobs ≡ err p)
          × (¬ Valid (parse_in parse_duration) jobs))
unfolding checked_periodic_jobs
checked_periodic_jobs-Scheduled parse_duration jobs =
    let all = check_periodic_from-CheckedAll (parse_in parse_duration) 0 [] jobs in
    let checked = check_periodic_from (parse_in parse_duration) 0 [] jobs in
    elim (Result-cases checked) [
      | inr (p, e) ↦
          let none_valid = subst (CheckedAll (parse_in parse_duration) [] jobs) e all in
          inr (p, e, λ v. none_valid (v, Fresh-nil (parse_in parse_duration) jobs))
      | inl (entries, e) ↦
          let (valid, fresh, same, parsed) =
            subst (CheckedAll (parse_in parse_duration) [] jobs) e all in
          inl (
            entries,
            e,
            valid,
            same,
            All-map (λ (x : PeriodicJob × Schedule). parse_in parse_duration x.0.cron ≡ ok x.1)
                (λ x h. (h, parse_in-WellFormed parse_duration x.0.cron x.1 h)) entries parsed,
          )
    ]
