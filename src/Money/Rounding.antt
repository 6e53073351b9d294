-- ===== src/Money/Rounding.antt =====
-- Bounds of the rounded quotients.
use native.Mathlib.Nat.{le-div_iff_mul-le, div-lt_iff_lt-mul}
use drip_marketplace.Prelude.{ℕ, suc, ◌+◌, ◌*◌, ◌≤◌, ◌<◌, arith}
use drip_marketplace.Money.{div_half_up}

pub div_half_up-ge : (a b k : ℕ) → 0 < b → k * b ≤ a → k ≤ div_half_up a b
unfolding div_half_up
div_half_up-ge a b k h p = (le-div_iff_mul-le (omega arith)).1 (grind arith)

pub div_half_up-le : (a b k : ℕ) → 0 < b → a ≤ k * b → div_half_up a b ≤ k
unfolding div_half_up
div_half_up-le a b k h p =
    grind (arith, (div-lt_iff_lt-mul {k = 2 * b} {x = 2 * a + b} {y = suc k} (omega arith)).1)
