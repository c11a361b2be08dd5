-- ===== src/Pool/Claims.antt =====
-- What one fetch round claims.
use drover.Prelude.{
  ℕ, ◌+◌, ◌-◌, ◌≡◌, ◌≤◌, inl, inr, String, Bool, ◌||◌, List, [], ◌∷◌, ◌++◌, arith, ltb, ◌==◌,
  Bool-cases, length, length-take, Result, Result-cases,
}
use drover.Driver.{Lease, JobRow, Error}
use drover.Inflight.{Inflight}
use drover.Pool.{leases_of, add_all, keep_requested, claim_from, claim_round}

length-append : {A : Type 0} (xs ys : List A) → length (xs ++ ys) ≡ length xs + length ys
length-append [] ys = omega arith
length-append (x ∷ xs) ys = omega (arith, length-append xs ys)

module _ {S : Type 0} (give_back : Lease → S → S × Result Error (Unit {0})) where
  keep_requested-length :
      (remaining : ℕ) (rows : List JobRow) (s : S) (t : Inflight)
      → length (keep_requested give_back remaining rows s t).0 ≤ remaining
  unfolding keep_requested
  keep_requested-length remaining rows s t = elim (Bool-cases (ltb remaining (length rows))) [
    | inl e ↦ rw e (omega (arith, length-take remaining rows))
    | inr e ↦ rw e (ground arith)
  ]

  module _ (fetch : String → ℕ → S → S × Result Error (List JobRow)) (stopping : ℕ → Bool) where
    claim_from-length :
        (order : List String) (remaining : ℕ) (claimed : List JobRow) (s : S) (t : Inflight)
        → length (claim_from give_back fetch stopping order remaining claimed s t).0
          ≤ length claimed + remaining
    unfolding claim_from
    claim_from-length [] remaining claimed s t = omega arith
    claim_from-length (queue ∷ order) remaining claimed s t =
        let fetched = fetch queue remaining s in
        elim (Result-cases fetched.1) [
          | inr (e, f) ↦ rw (f, claim_from) (omega arith)
          | inl (rows, f) ↦
              let kept =
                keep_requested give_back remaining rows fetched.0 (add_all (leases_of rows) t) in
              let few =
                keep_requested-length remaining rows fetched.0 (add_all (leases_of rows) t) in
              let left = remaining - length kept.0 in
              let rest = claim_from-length order left (claimed ++ kept.0) kept.1 kept.2 in
              let both = length-append claimed kept.0 in
              rw (f, claim_from)
                (elim (Bool-cases (left == 0 || stopping (length order))) [
                  | inl last ↦ rw last (omega arith)
                  | inr more ↦ rw more (omega arith)
                ])
        ]

    -- A fetch round never claims more jobs than it has room for, over any driver: not even over one that
    -- answers with more rows than it was asked for.
    pub claim_round-length :
        (order : List String) (capacity : ℕ) (s : S) (t : Inflight)
        → length (claim_round give_back fetch stopping order capacity s t).0 ≤ capacity
    unfolding claim_round
    claim_round-length order capacity s t = omega (arith, claim_from-length order capacity [] s t)
