-- ===== src/Periodic/Waits.antt =====
-- That a turn of the scheduler ends and never sleeps past a fire.
use drover.Prelude.{
  ℕ, ◌+◌, ◌-◌, Bool, true, false, List, [], ◌∷◌, some, ◌==◌, ok, ◌≡◌, refl, ◌≤◌, ◌<◌, ◌⊎◌, inl, inr,
  arith, subst, All, Bool-cases,
}
use drover.Driver.{Time}
use drover.Periodic.Watermark.{enqueue_due-fires}
use drover.Periodic.Turns.{
  Entry, Round, is_halted, sooner, watermarks, enqueue_entries, wait, Scheduler, schedule_turn,
  watched,
}

-- The schedule's next fire is later, or there is none.
abbrev pub Advances : {S : Type 0} → Entry S × Time → Type 0
Advances e = (u : Time) → (e.0.next u ≡ 0) ⊎ (u < e.0.next u)

-- `soonest` is 0 only if there is no fire, and no later than any.
abbrev Soonest : Time → Time → Type 0
Soonest soonest fire = (fire ≡ 0) ⊎ ((0 < soonest) × (soonest ≤ fire))

-- The predicate holds of each job's next fire after its watermark.
abbrev pub EachNext : {S : Type 0} → (Time → Type 0) → List (Entry S × Time) → List Time → Type 0
EachNext P [] [] = Unit
EachNext P (e ∷ es) (last ∷ lasts) = P (e.0.next last) × EachNext P es lasts
EachNext P _ _ = ⊥

EachNext-map :
    {S : Type 0} (P Q : Time → Type 0) (f : (u : Time) → P u → Q u)
    (entries : List (Entry S × Time)) (lasts : List Time)
    → EachNext P entries lasts
    → EachNext Q entries lasts
EachNext-map P Q f [] [] h = tt
EachNext-map P Q f (e ∷ es) (last ∷ lasts) h =
    (f (e.0.next last) h.0, EachNext-map P Q f es lasts h.1)
EachNext-map P Q f [] (last ∷ lasts) h = elim h [ ]
EachNext-map P Q f (e ∷ es) [] h = elim h [ ]

abbrev Any : Time → Type 0
Any u = Unit

watermarks-EachNext :
    {S : Type 0} (entries : List (Entry S × Time)) → EachNext Any entries (watermarks entries)
watermarks-EachNext [] = tt
watermarks-EachNext (e ∷ es) = (tt, watermarks-EachNext es)

module _ {S : Type 0} (stops : Time → Bool) (now : Time) where
  abbrev Fired : List (Entry S × Time) → Round S → Type 0
  Fired entries r =
      ((r.stopped ≡ true) × EachNext Any entries r.lasts)
      ⊎ EachNext (Soonest r.soonest) entries r.lasts

  abbrev Ends : List (Entry S × Time) → S → Time → Type 0
  Ends entries s soonest =
      (r : Round S) × (enqueue_entries stops (now + 2) now entries s soonest ≡ some r)
      × Soonest r.soonest soonest
      × Fired entries r

  enqueue_entries-Ends :
      (entries : List (Entry S × Time)) (s : S) (soonest : Time)
      → All Advances entries
      → Ends entries s soonest
  unfolding enqueue_entries
  enqueue_entries-Ends [] s soonest h = (_, refl, ground arith, inr tt)
  enqueue_entries-Ends ((entry, last) ∷ entries) s soonest h =
      let (t, e, m, c) = enqueue_due-fires entry.next entry.insert_tick stops h.0 now last s in
      elim (Bool-cases (is_halted t.ended)) [
        | inl stop ↦ (
          record {
            store = t.store;
            lasts = t.last ∷ watermarks entries;
            fires = [];
            soonest = soonest;
            stopped = true;
          },
          rw (e, enqueue_entries) (rw stop refl),
          ground arith,
          inl (refl, (tt, watermarks-EachNext entries)),
        )
        | inr go ↦
            let (r, e', low, rest) =
              enqueue_entries-Ends entries t.store (sooner t.fire soonest) h.1 in
            (
              record r { lasts = t.last ∷ r.lasts; fires = t.fire ∷ r.fires },
              rw (e, enqueue_entries) (rw (go, e') refl),
              ground arith,
              elim rest [
                | inl (stop, any) ↦ inl (stop, (tt, any))
                | inr each ↦ inr (subst (Soonest r.soonest) m.1 (ground arith), each)
              ],
            )
      ]

-- The wait `w` from now ends no later than the fire, if there is one; it is 0 where the fire is due.
abbrev pub InTime : Time → ℕ → Time → Type 0
InTime now w fire = (fire ≡ 0) ⊎ (w ≤ fire - now)

stopped-wait :
    {S : Type 0} (poll : ℕ) (now : Time) (r : Round S) (fire : Time)
    → r.stopped ≡ true
    → wait poll now r ≤ fire - now
unfolding wait
stopped-wait poll now r fire stop = rw stop (omega arith)

soonest-wait :
    {S : Type 0} (poll : ℕ) (now : Time) (r : Round S) (fire : Time)
    → Soonest r.soonest fire
    → (fire ≡ 0) ⊎ (wait poll now r ≤ fire - now)
unfolding wait
soonest-wait poll now r fire (inl gone) = inl gone
soonest-wait poll now r fire (inr (some_fire, low)) = elim (Bool-cases r.stopped) [
  | inl stop ↦ inr (rw stop (omega arith))
  | inr go ↦
      let there : (r.soonest == 0) ≡ false = ground arith in inr (rw (go, there) (omega arith))
]

-- If every schedule's next fire is strictly later or none, a leader's turn ends, and it asks for a wait
-- that ends no later than the next fire of any job after the watermark that the turn leaves it: where that
-- fire is already due, as that of a tick which the store refused, the wait is zero.
pub schedule_turn-waits :
    {S : Type 0} (stops : Time → Bool) (poll : ℕ) (entries : List (Entry S)) (gained now : Time)
    (sch : Scheduler) (s : S)
    → All Advances (watched entries gained sch)
    → (lasts : List Time) × (s' : S) × (w : ℕ) × (schedule_turn stops poll entries
          (now + 2)
          (ok true)
          gained
          now
          sch
          s
        ≡ some (record { was_leader = true; last_fires = lasts }, s', w))
      × EachNext (InTime now w) (watched entries gained sch) lasts
unfolding schedule_turn
schedule_turn-waits stops poll entries gained now sch s h =
    let (r, e, low, fired) = enqueue_entries-Ends stops now (watched entries gained sch) s 0 h in
    (
      r.lasts,
      r.store,
      wait poll now r,
      rw (e, schedule_turn) refl,
      elim fired [
        | inl (stop, any) ↦
            EachNext-map Any (InTime now (wait poll now r))
              (λ fire u. inr (stopped-wait poll now r fire stop)) (watched entries gained sch)
              r.lasts any
        | inr each ↦
            EachNext-map (Soonest r.soonest) (InTime now (wait poll now r))
              (soonest-wait poll now r) (watched entries gained sch) r.lasts each
      ],
    )
