-- ===== src/Periodic/Watermark.antt =====
-- What one turn of the scheduler does for one job.
use drover.Prelude.{
  ℕ, zero, suc, ◌+◌, ◌≡◌, refl, ◌≢◌, ◌≤◌, ◌<◌, ◌⊎◌, inl, inr, Bool, true, false, ◌||◌, List, [],
  ◌∷◌, ◌++◌, some, arith, ltb, ◌==◌, Bool-cases, ap, sym,
}
use drover.Driver.{Time}
use drover.Periodic.{Ended, caught_up, failed, halted, Turn, enqueue_due}

module _ {S : Type 0} (next : Time → Time) (insert_tick : Time → S → S × Bool)
    (stopped : Time → Bool) (later : (u : Time) → (next u ≡ 0) ⊎ (u < next u)) where
  -- The successive fires from `from` to `last`, each due by `now`.
  abbrev pub Fires : Time → Time → List Time → Time → Type 0
  Fires now from [] last = from ≡ last
  Fires now from (f ∷ fs) last = (f ≡ next from) × (0 < f) × (f ≤ now) × Fires now f fs last

  Fires-snoc :
      (now from last : Time) (fs : List Time)
      → Fires now from fs last
      → 0 < next last
      → next last ≤ now
      → Fires now from (fs ++ next last ∷ []) (next last)
  Fires-snoc now from last [] e p q = (ap next (sym e), p, q, refl)
  Fires-snoc now from last (f ∷ fs) (e, a, b, rest) p q =
      (e, a, b, Fires-snoc now f last fs rest p q)

  -- The watermark is the last fire that was enqueued, and the fire in hand is the one after it.
  abbrev pub Marked : Time → Time → Turn S → Type 0
  Marked now from t = Fires now from t.fired t.last × (t.fire ≡ next t.last)

  abbrev pub CaughtUp : Time → Turn S → Type 0
  CaughtUp now t = t.ended ≡ caught_up → (t.fire ≡ 0) ⊎ (now < t.fire)

  halts :
      (now from : Time) (t : Turn S) (e : Ended)
      → Marked now from t
      → e ≢ caught_up
      → Marked now from (record t { ended = e }) × CaughtUp now (record t { ended = e })
  halts now from t e m h = (m, λ c. absurd (h c))

  enqueue_due-Marked :
      (n : ℕ) (now from : Time) (t : Turn S)
      → (t.fire ≡ 0) ⊎ (now < t.fire + n)
      → Marked now from t
      → (t' : Turn S) × (enqueue_due next insert_tick stopped (suc n) now t ≡ some t')
        × Marked now from t'
        × CaughtUp now t'
  unfolding enqueue_due
  enqueue_due-Marked zero now from t fuel m =
      let over : (t.fire == 0 || ltb now t.fire) ≡ true = ground arith in
      (record t { ended = caught_up }, rw over refl, m, λ c. ground arith)
  enqueue_due-Marked (suc n) now from t fuel m = elim (Bool-cases (t.fire == 0 || ltb now t.fire)) [
    | inl over ↦ (record t { ended = caught_up }, rw over refl, m, λ c. ground arith)
    | inr due ↦ elim (Bool-cases (stopped t.fire)) [
      | inl stop ↦ (record t { ended = halted }, rw (due, stop) refl, m, λ c. absurd (ground arith))
      | inr go ↦ elim (Bool-cases (insert_tick t.fire t.store).1) [
        | inr refused ↦ (
          record t { store = (insert_tick t.fire t.store).0; ended = failed },
          rw (due, go, refused) refl,
          m,
          λ c. absurd (ground arith),
        )
        | inl landed ↦
            let (t', e, m', c) =
              enqueue_due-Marked n now from
                (record {
                  store = (insert_tick t.fire t.store).0;
                  last = t.fire;
                  fire = next t.fire;
                  fired = t.fired ++ t.fire ∷ [];
                  ended = caught_up;
                })
                (further due) (moved due, refl) in
            (t', rw (due, go, landed) e, m', c)
      ]
    ]
  ]
    where
      further :
          (t.fire == 0 || ltb now t.fire) ≡ false → (next t.fire ≡ 0) ⊎ (now < next t.fire + n)
      further due = elim (later t.fire) [
        | inl none_left ↦ inl none_left
        | inr after ↦ inr (ground arith)
      ]

      moved :
          (t.fire == 0 || ltb now t.fire) ≡ false → Fires now from (t.fired ++ t.fire ∷ []) t.fire
      moved due = rw m.1 (
          Fires-snoc now from t.last t.fired m.0 (rw (← m.1) (ground arith))
            (rw (← m.1) (ground arith)))

  pub enqueue_due-fires :
      (now from : Time) (s : S)
      → (t' : Turn S) × (enqueue_due next insert_tick stopped
            (now + 2)
            now
            (record { store = s; last = from; fire = next from; fired = []; ended = caught_up })
          ≡ some t')
        × Marked now from t'
        × CaughtUp now t'
  enqueue_due-fires now from s =
      let start : Turn S = record {
        store = s;
        last = from;
        fire = next from;
        fired = [];
        ended = caught_up;
      } in
      let two : now + 2 ≡ suc (now + 1) = omega arith in
      rw two (enqueue_due-Marked (now + 1) now from start (inr (omega arith)) (refl, refl))
