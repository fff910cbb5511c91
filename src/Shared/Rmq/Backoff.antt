-- ===== src/Shared/Rmq/Backoff.antt =====
-- The waits of `NewRMQManager` between its attempts to connect.
use alpine_judge.Common.{ℕ, zero, suc, ◌+◌, ◌*◌, ◌≤◌, min, List, [], ◌∷◌, arith}

-- The waits after `n` failed attempts, the first of which has number `k`.
abbrev pub waits_from : ℕ → ℕ → List ℕ
waits_from k zero = []
waits_from k (suc n) = 10 * min k 6 ∷ waits_from (k + 1) n

-- No wait is longer than a minute, and none is shorter than the one before it.
abbrev pub IsBackoff : ℕ → List ℕ → Type 0
IsBackoff low [] = Unit
IsBackoff low (w ∷ ws) = (low ≤ w) × (w ≤ 60) × IsBackoff w ws

pub waits_from-IsBackoff : (low k n : ℕ) → low ≤ 10 * min k 6 → IsBackoff low (waits_from k n)
waits_from-IsBackoff low k zero h = tt
waits_from-IsBackoff low k (suc n) h =
    (h, omega arith, waits_from-IsBackoff (10 * min k 6) (k + 1) n (omega arith))
