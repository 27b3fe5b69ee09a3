-- ===== src/Prelude/Mod.antt =====
-- The remainder below the divisor and just above it, for divisors that are not literals.
use Prim.Native.Nat.mod
use Prim.Native.Nat.{ℕ, zero, suc, ◌+◌, ◌-◌, ◌%◌, ◌≤◌, ◌<◌, mod_helper}
use mathlib.Core.Path.{◌≡◌, ◌∙◌, ap}
use native.Mathlib.Omega.{arith}

helper_below : (k m n j : ℕ) → n ≤ j → mod_helper k m n j ≡ k + n
helper_below k m zero j h = omega arith
helper_below k m (suc n) zero h = absurd (omega (arith, h))
helper_below k m (suc n) (suc j) h = helper_below (suc k) m n j (omega (arith, h)) ∙ omega arith

helper_above : (k m n j d : ℕ) → n ≡ suc j + d → mod_helper k m n j ≡ mod_helper 0 m d m
helper_above k m zero j d h = absurd (omega (arith, h))
helper_above k m (suc n) zero d h = ap (λ (x : ℕ). mod_helper 0 m x m) (omega (arith, h))
helper_above k m (suc n) (suc j) d h = helper_above (suc k) m n j d (omega (arith, h))

clause : (a n : ℕ) → a % suc n ≡ mod_helper 0 n a n
clause a n = mod.suc a n

pub mod_below : (a n : ℕ) → a < n → a % n ≡ a
mod_below a zero h = absurd (omega (arith, h))
mod_below a (suc n) h = clause a n ∙ helper_below 0 n a n (omega (arith, h)) ∙ omega arith

-- One turn above.
pub mod_above : (a n : ℕ) → n ≤ a → a < n + n → a % n ≡ a - n
mod_above a zero h k = absurd (omega (arith, k))
mod_above a (suc n) h k =
    clause a n
    ∙ helper_above 0 n a n (a - suc n) (omega (arith, h))
    ∙ helper_below 0 n (a - suc n) n (omega (arith, h, k))
    ∙ omega arith

helper_bound : (k m n j : ℕ) → k + j ≡ m → mod_helper k m n j ≤ m
helper_bound k m zero j h = omega (arith, h)
helper_bound k m (suc n) zero h = helper_bound 0 m n m (omega arith)
helper_bound k m (suc n) (suc j) h = helper_bound (suc k) m n j (omega (arith, h))

pub mod_lt : (a n : ℕ) → 0 < n → a % n < n
mod_lt a zero h = absurd (omega (arith, h))
mod_lt a (suc n) h = omega (arith, clause a n, helper_bound 0 n a n (omega arith))
