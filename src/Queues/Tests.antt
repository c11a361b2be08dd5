-- ===== src/Queues/Tests.antt =====
-- Three configured queues, one of them with a weight out of range.
use drover.Prelude.{ℕ, String, ◌≡◌, List, [], ◌∷◌, map, some, arith, ℤ, pos, negsuc, Perm}
use drover.Queues.{WeightedQueue, weighted_order}
use drover.Queues.Laws.{weighted_order-perm}

abbrev three : List WeightedQueue
three =
    record { name = "bulk"; weight = 1 }
    ∷ record { name = "mail"; weight = 5 }
    ∷ record { name = "rare"; weight = 2 }
    ∷ []

abbrev draws : ℕ → ℕ
draws n = n

weighted_order-perm_example :
    (out : List String) × (weighted_order draws three ≡ some out)
    × Perm out (map (λ q. q.name) three)
weighted_order-perm_example =
    weighted_order-perm draws three (omega arith, (omega arith, (omega arith, tt)))

abbrev configured : List (String × ℤ)
configured = ("mail", pos 5) ∷ ("bulk", negsuc 2) ∷ []
