-- ===== src/Outcome/Laws.antt =====
-- Classification of a handler's error against the errors inside it.
use drover.Prelude.{
  ℕ, String, ◌≡◌, refl, ◌⊎◌, inl, inr, ◌↔◌, true, false, Option, some, arith, subst, Bool-cases,
  Option-cases, ℤ, pos_part,
}
use drover.Outcome.{
  JobError, err_cancelled, err_snoozed, snooze_error, panic_error, message, wrap, join, cancel,
  snooze, is_cancelled, is_snoozed, as_snooze, outcome_failed, outcome_cancelled, outcome_snoozed,
  classify_outcome,
}

-- `x` is `e` or stands somewhere under the errors that `e` wraps.
pub data Within (x : JobError) : JobError → Type 0 where
  here : Within x x
  under : {context : String} {e : JobError} → Within x e → Within x (wrap context e)
  left : {a b : JobError} → Within x a → Within x (join a b)
  right : {a b : JobError} → Within x b → Within x (join a b)

is_cancelled-Within : (e : JobError) → is_cancelled e ≡ true → Within err_cancelled e
unfolding is_cancelled
is_cancelled-Within err_cancelled h = here
is_cancelled-Within err_snoozed h = cc
is_cancelled-Within (snooze_error d) h = cc
is_cancelled-Within (panic_error v s) h = cc
is_cancelled-Within (message t) h = cc
is_cancelled-Within (wrap c e) h = under (is_cancelled-Within e h)
is_cancelled-Within (join a b) h = elim (Bool-cases (is_cancelled a)) [
  | inl e ↦ left (is_cancelled-Within a e)
  | inr e ↦ right (is_cancelled-Within b (ground arith))
]

Within-is_cancelled : {e : JobError} → Within err_cancelled e → is_cancelled e ≡ true
unfolding is_cancelled
Within-is_cancelled here = refl
Within-is_cancelled (under w) = Within-is_cancelled w
Within-is_cancelled (left w) = ground (arith, Within-is_cancelled w)
Within-is_cancelled (right w) = ground (arith, Within-is_cancelled w)

Within-is_snoozed : {x e : JobError} → Within x e → is_snoozed x ≡ true → is_snoozed e ≡ true
unfolding is_snoozed
Within-is_snoozed here h = h
Within-is_snoozed (under w) h = Within-is_snoozed w h
Within-is_snoozed (left w) h = ground (arith, Within-is_snoozed w h)
Within-is_snoozed (right w) h = ground (arith, Within-is_snoozed w h)

as_snooze-Within : (e : JobError) (d : ℕ) → as_snooze e ≡ some d → Within (snooze_error d) e
unfolding as_snooze
as_snooze-Within err_cancelled d h = cc
as_snooze-Within err_snoozed d h = cc
as_snooze-Within (snooze_error t) d h =
    subst (λ n. Within (snooze_error d) (snooze_error n)) (ground arith) here
as_snooze-Within (panic_error v s) d h = cc
as_snooze-Within (message t) d h = cc
as_snooze-Within (wrap c e) d h = under (as_snooze-Within e d h)
as_snooze-Within (join a b) d h = elim (Option-cases (as_snooze a)) [
  | inl none_left ↦ right (as_snooze-Within b d (ground arith))
  | inr (t, e) ↦ left (as_snooze-Within a d (ground arith))
]

-- A handler's error is a cancellation exactly when ErrCancelled stands anywhere inside it, whatever
-- else does; if not, a snooze anywhere inside it makes it a snooze, whose wait is that of a Snooze
-- inside it or zero; and an error that is classified as a failure has neither inside it.
pub classify_outcome-Within :
    (e : JobError)
    → ((classify_outcome e).0 ≡ outcome_cancelled ↔ Within err_cancelled e)
      × ((classify_outcome e).0 ≡ outcome_snoozed
          → Within (snooze_error (classify_outcome e).1) e ⊎ ((classify_outcome e).1 ≡ 0))
      × ((classify_outcome e).0 ≡ outcome_failed
          → (¬ Within err_cancelled e)
            × (¬ Within err_snoozed e)
            × ((d : ℕ) → ¬ Within (snooze_error d) e))
unfolding classify_outcome
classify_outcome-Within e = elim (Bool-cases (is_cancelled e)) [
  | inl on ↦ (
    (λ h. is_cancelled-Within e on, λ w. ground arith),
    (λ h. absurd (ground arith)),
    (λ h. absurd (ground arith)),
  )
  | inr off ↦ (
    (λ h. absurd (ground arith), λ w. absurd (ground (arith, Within-is_cancelled w))),
    (λ h. waited off h),
    (λ h. neither off h),
  )
]
  where
    waited :
        is_cancelled e ≡ false
        → (classify_outcome e).0 ≡ outcome_snoozed
        → Within (snooze_error (classify_outcome e).1) e ⊎ ((classify_outcome e).1 ≡ 0)
    waited off h = elim (Option-cases (as_snooze e)) [
      | inr (d, s) ↦ inl (rw (off, s) (as_snooze-Within e d s))
      | inl s ↦ inr (ground arith)
    ]

    neither :
        is_cancelled e ≡ false
        → (classify_outcome e).0 ≡ outcome_failed
        → (¬ Within err_cancelled e)
          × (¬ Within err_snoozed e)
          × ((d : ℕ) → ¬ Within (snooze_error d) e)
    neither off h = (
      (λ w. absurd (ground (arith, Within-is_cancelled w))),
      (λ w. absurd (ground (arith, snoozes w (unfold is_snoozed in refl)))),
      λ d w. absurd (ground (arith, snoozes w (unfold is_snoozed in refl))),
    )
      where
        snoozes : {x : JobError} → Within x e → is_snoozed x ≡ true → is_snoozed e ≡ true
        snoozes w h = Within-is_snoozed w h

-- What Cancel and Snooze build is read back as asked, also under context that a worker adds: a
-- cancellation, and a snooze for the duration or for zero where that is negative.
pub classify_outcome-built :
    (reason : Option JobError) (d : ℤ) (context : String)
    → (classify_outcome (wrap context (cancel reason)) ≡ (outcome_cancelled, 0))
      × (classify_outcome (wrap context (snooze d)) ≡ (outcome_snoozed, pos_part d))
unfolding classify_outcome cancel snooze
classify_outcome-built reason d context = ground arith
