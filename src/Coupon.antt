-- ===== src/Coupon.antt =====
-- Coupons (services/coupon_service.py). A code's number stands for its upper-case text.
pub mod Discount
use drip_marketplace.Prelude.{
  ℕ, ◌*◌, Bool, true, false, not, ◌&&◌, Option, none, some, List, [], ◌∷◌, length, min, select, ltb,
  leb, ◌==◌, if◌then◌else◌,
}
use drip_marketplace.Money.{div_half_up}
use drip_marketplace.Db.{
  Tx, pure, raise_if, gets, or_raise, ◌>>=◌, ◌>>◌, Db, Coupon, CouponUsage, DiscountType,
  coupon_not_found, coupon_inactive, coupon_not_yet_valid, coupon_expired, coupon_limit,
  coupon_minimum, coupon_already_used,
}

abbrev pub CouponRow : Type 0
CouponRow = ℕ × Coupon

-- The row with the code, which is unique.
unfoldable pub find_coupon : ℕ → List CouponRow → Option CouponRow
find_coupon code [] = none
find_coupon code (row ∷ rows) = if row.1.code == code then some row else find_coupon code rows

abbrev pub is_before : ℕ → Option ℕ → Bool
is_before now none = false
is_before now (some from) = ltb now from

abbrev pub is_after : ℕ → Option ℕ → Bool
is_after now none = false
is_after now (some until) = ltb until now

-- `coupon.max_uses and coupon.uses_count >= coupon.max_uses`: a limit of 0 is no limit.
abbrev pub is_used_up : Option ℕ → ℕ → Bool
is_used_up none uses = false
is_used_up (some limit) uses = ltb 0 limit && leb limit uses

-- How often a customer has used a coupon.
unfoldable pub usages : ℕ → ℕ → List CouponUsage → ℕ
usages coupon_id user_id rows =
    length (select (λ usage. usage.coupon_id == coupon_id && usage.user_id == user_id) rows)

abbrev pub has_used : Option ℕ → CouponRow → Db → Bool
has_used none row db = false
has_used (some user_id) row db =
    leb row.1.max_uses_per_customer (usages row.0 user_id db.coupon_usages)

-- `_get_valid_coupon`
unfoldable pub get_valid_coupon : ℕ → ℕ → ℕ → Option ℕ → Tx CouponRow
get_valid_coupon now code subtotal user_id = do
  found ← gets (λ db. find_coupon code db.coupons)
  row ← or_raise found coupon_not_found
  raise_if (not row.1.is_active) coupon_inactive
  raise_if (is_before now row.1.valid_from) coupon_not_yet_valid
  raise_if (is_after now row.1.valid_until) coupon_expired
  raise_if (is_used_up row.1.max_uses row.1.uses_count) coupon_limit
  raise_if (ltb subtotal row.1.min_order_amount) coupon_minimum
  used ← gets (has_used user_id row)
  raise_if used coupon_already_used
  pure row

-- The discount before rounding, in ten-thousandths of a paisa: the value is hundredths of a percent, or
-- paisa.
abbrev pub exact_discount : Coupon → ℕ → ℕ
exact_discount coupon subtotal = elim coupon.discount_type [
  | DiscountType.percentage ↦ subtotal * coupon.discount_value
  | DiscountType.fixed ↦ coupon.discount_value * 10000
]

-- `_calc_discount`
unfoldable pub calc_discount : Coupon → ℕ → ℕ
calc_discount coupon subtotal =
    div_half_up (min (exact_discount coupon subtotal) (subtotal * 10000)) 10000
