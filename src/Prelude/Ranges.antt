-- ===== src/Prelude/Ranges.antt =====
-- Tests of every number below a bound, by evaluation.
use c_programming.Prelude.{ℕ, zero, suc, ◌<◌, ◌≡◌, Bool, true, false, if◌then◌else◌, arith}

-- The test holds from `n - 1` down to 0.
unfoldable pub all_below : ℕ → (ℕ → Bool) → Bool
all_below zero test = true
all_below (suc k) test = if test k then all_below k test else false

module _ (test : ℕ → Bool) where
  holds_at : (k v : ℕ) → v < k → all_below k test ≡ true → test v ≡ true
  unfolding all_below
  holds_at zero v below every = absurd (omega arith)
  holds_at (suc k) v below every = ground (arith, holds_at k v)

pub all_below_sound : (n : ℕ) (p : ℕ → Bool) (x : ℕ) → all_below n p ≡ true → x < n → p x ≡ true
all_below_sound n p x every below = holds_at p n x below every
