-- ===== src/Coupon/Discount.antt =====
-- A coupon's discount is bounded by the subtotal and as exact as a whole paisa can be; and a coupon is
-- accepted exactly when every rule of it is met.
use drip_marketplace.Prelude.{
  sym, ap, ◌∙◌, ℕ, ◌+◌, ◌*◌, ◌≤◌, ◌<◌, ◌≡◌, refl, Bool, true, false, not, Option, some, arith, min,
  ltb,
}
use drip_marketplace.Money.{div_half_up}
use drip_marketplace.Db.{Db, Coupon, Error, Ends, Ends-guard, Ends-require}
use drip_marketplace.Coupon.{
  CouponRow, find_coupon, is_before, is_after, is_used_up, has_used, get_valid_coupon,
  exact_discount, calc_discount,
}

-- A discount: within the subtotal, and the nearest paisa to the exact value cut off at the subtotal.
pub record IsDiscount (coupon : Coupon) (subtotal discount : ℕ) : Type 0 where
  pub within : discount ≤ subtotal
  pub nearest_above :
      2 * 10000 * discount ≤ 2 * min (exact_discount coupon subtotal) (subtotal * 10000) + 10000
  pub nearest_below :
      2 * min (exact_discount coupon subtotal) (subtotal * 10000) < 2 * 10000 * discount + 10000

pub calc_discount-IsDiscount :
    (coupon : Coupon) (subtotal : ℕ) → IsDiscount coupon subtotal (calc_discount coupon subtotal)
unfolding calc_discount div_half_up
calc_discount-IsDiscount coupon subtotal =
    let exact = min (exact_discount coupon subtotal) (subtotal * 10000) in
    record { within = omega arith; nearest_above = omega arith; nearest_below = omega arith }

-- Every rule of the coupon is met.
pub record IsUsable (now code subtotal : ℕ) (user_id : Option ℕ) (db : Db) (row : CouponRow)
    : Type 0 where
  pub found : find_coupon code db.coupons ≡ some row
  pub active : row.1.is_active ≡ true
  pub started : is_before now row.1.valid_from ≡ false
  pub not_over : is_after now row.1.valid_until ≡ false
  pub left : is_used_up row.1.max_uses row.1.uses_count ≡ false
  pub enough : row.1.min_order_amount ≤ subtotal
  pub unused : has_used user_id row db ≡ false

module _ (now code subtotal : ℕ) (user_id : Option ℕ) (db : Db) where
  -- A test that the coupon fails is a rule that no usable row breaks.
  refuse :
      (test : CouponRow → Bool) (row : CouponRow)
      → find_coupon code db.coupons ≡ some row
      → test row ≡ true
      → ((r : CouponRow) → IsUsable now code subtotal user_id db r → test r ≡ false)
      → (r : CouponRow) → ¬ (IsUsable now code subtotal user_id db r)
  refuse test row found broken rule r u =
      let same : row ≡ r = ground (arith, u.found) in
      let clash : true ≡ false = sym broken ∙ ap test same ∙ rule r u in ground arith

  -- A coupon is accepted exactly when every rule of it is met, and the database stays as it is.
  pub get_valid_coupon-IsUsable :
      Ends
        (λ row db'. (db' ≡ db) × IsUsable now code subtotal user_id db row)
        (λ _. (r : CouponRow) → ¬ (IsUsable now code subtotal user_id db r))
        (get_valid_coupon now code subtotal user_id db)
  unfolding get_valid_coupon
  get_valid_coupon-IsUsable =
      Ends-require P E db (find_coupon code db.coupons) _ _
        (λ none_there r u. ground (arith, u.found))
        (λ row found.
          Ends-guard P E db (not row.1.is_active) _ _
            (λ e. refuse (λ r. not r.1.is_active) row found e (λ r u. ground (arith, u.active)))
            (λ active.
              Ends-guard P E db (is_before now row.1.valid_from) _ _
                (λ e. refuse (λ r. is_before now r.1.valid_from) row found e (λ r u. u.started))
                (λ started.
                  Ends-guard P E db (is_after now row.1.valid_until) _ _
                    (λ e.
                      refuse (λ r. is_after now r.1.valid_until) row found e (λ r u. u.not_over))
                    (λ not_over.
                      Ends-guard P E db (is_used_up row.1.max_uses row.1.uses_count) _ _
                        (λ e.
                          refuse (λ r. is_used_up r.1.max_uses r.1.uses_count) row found e
                            (λ r u. u.left))
                        (λ left.
                          Ends-guard P E db (ltb subtotal row.1.min_order_amount) _ _
                            (λ e.
                              refuse (λ r. ltb subtotal r.1.min_order_amount) row found e
                                (λ r u. ground (arith, u.enough)))
                            (λ enough.
                              Ends-guard P E db (has_used user_id row db) _ _
                                (λ e.
                                  refuse (λ r. has_used user_id r db) row found e (λ r u. u.unused))
                                (λ unused. (
                                  refl,
                                  record {
                                    found = found;
                                    active = ground arith;
                                    started = started;
                                    not_over = not_over;
                                    left = left;
                                    enough = ground arith;
                                    unused = unused;
                                  },
                                ))))))))
    where
      P : CouponRow → Db → Type 0
      P row db' = (db' ≡ db) × IsUsable now code subtotal user_id db row

      E : Error → Type 0
      E _ = (r : CouponRow) → ¬ (IsUsable now code subtotal user_id db r)
