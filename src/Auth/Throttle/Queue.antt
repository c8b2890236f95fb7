-- ===== src/Auth/Throttle/Queue.antt =====
-- The queues of times of the last minute (`deque` in backend/app/auth/throttle.py).
use cabinet_numismatics.Prelude.{ℕ, ◌≤◌, ◌<◌, List, [], ◌∷◌, arith, length}
use cabinet_numismatics.Auth.Throttle.Ops.{pop_old, until_oldest}

pub length-pop_old : (t : ℕ) (l : List ℕ) → length (pop_old t l) ≤ length l
unfolding pop_old
length-pop_old t [] = omega arith
length-pop_old t (x ∷ l) = ground (arith, length-pop_old t l)

-- What is left begins inside the last minute, so a wait for it is not over.
pub until_oldest-pos :
    (t : ℕ) (l : List ℕ) → 0 < length (pop_old t l) → 0 < until_oldest t (pop_old t l)
unfolding pop_old until_oldest
until_oldest-pos t [] h = absurd (omega arith)
until_oldest-pos t (x ∷ l) h = ground (arith, until_oldest-pos t l)
