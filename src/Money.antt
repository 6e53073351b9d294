-- ===== src/Money.antt =====
-- Decimal amounts of money in whole paisa, and the two roundings that the services use
-- (services/commission_service.py, services/order_service.py).
pub mod Rounding
use drip_marketplace.Prelude.{ℕ, ◌+◌, ◌*◌, ◌/◌, ◌%◌, ltb, ◌==◌, if◌then◌else◌}

-- The quotient a / b rounded to the nearest whole number, halves up (ROUND_HALF_UP).
unfoldable pub div_half_up : ℕ → ℕ → ℕ
div_half_up a b = (2 * a + b) / (2 * b)

-- The quotient a / b rounded to the nearest whole number, halves to the even neighbour
-- (ROUND_HALF_EVEN, the rounding of Python's default decimal context).
unfoldable pub div_half_even : ℕ → ℕ → ℕ
div_half_even a b =
    let q = a / b in
    let r = a % b in
    if ltb (2 * r) b then q else if ltb b (2 * r) then q + 1 else if q % 2 == 0 then q else q + 1
