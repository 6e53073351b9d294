-- ===== src/Tests/Orders.antt =====
-- Coupons, checkout and orders on the databases of Tests.
use mathlib.Core.Path.{subst}
use drip_marketplace.Prelude.{
  ℕ, ◌+◌, ◌≤◌, ◌≡◌, refl, true, false, Option, none, some, List, [], ◌∷◌, arith, sum_of,
}
use drip_marketplace.Money.{div_half_up, div_half_even}
use drip_marketplace.Inventory.{reserve}
use drip_marketplace.Db.{
  Db, Ends, Never, Variant, SellerStatus, Coupon, DiscountType, Order, OrderStatus, OrderItem,
  PaymentMethod, SellerOrderStatus, ProductInventory, lookup, insert, modify,
}
use drip_marketplace.Commission.Ledger.Charged.{Books}
use drip_marketplace.Commission.Refund.Allocated.{AnyError}
use drip_marketplace.Inventory.Invariant.{IsStock}
use drip_marketplace.Coupon.{CouponRow, calc_discount, get_valid_coupon, find_coupon, usages}
use drip_marketplace.Coupon.Discount.{
  IsDiscount, calc_discount-IsDiscount, IsUsable, get_valid_coupon-IsUsable,
}
use drip_marketplace.Checkout.{
  allocate, lines_subtotal, seller_subtotals_from, calculate_checkout, fetch_and_validate_variants,
  is_bad_quantities, all_entries, checkout_lines, add_to, proposed_share, bounded_share,
}
use drip_marketplace.Checkout.Allocation.{entry_amount, Within, allocate-exact}
use drip_marketplace.Orders.{cancel_order}
use drip_marketplace.Orders.Expiry.{cod_verification_timeout}
use drip_marketplace.Orders.Cancelled.{
  Cancelled, cancel_order-Cancelled, TimesOut, cod_verification_timeout-TimesOut,
}
use drip_marketplace.Orders.Fulfil.{update_seller_order_status}
use drip_marketplace.Orders.Fulfil.Moved.{UpdateEnds, update_seller_order_status-Standing}
use drip_marketplace.Orders.Place.{CheckoutRequest, build_order, reserve_lines, store_seller_orders}
use drip_marketplace.Orders.Replay.{CheckoutCall, find_by_key, create_checkout}
use drip_marketplace.Orders.Replay.Once.{Answers, create_checkout-Answers}
use drip_marketplace.Orders.Place.Placed.{OrderBooks, Placed, build_order-Placed}
use drip_marketplace.Tests.{order, parcel, shelf, shop}

abbrev shirt : ℕ → ℕ → Variant
shirt seller price = record {
  product_id = 80;
  seller_id = seller;
  price_override = none;
  sale_price = some price;
  price = 990000;
  is_active = true;
  is_published = true;
  admin_hidden = false;
  product_deleted = false;
  seller_status = SellerStatus.active;
}

-- Fifteen percent.
abbrev voucher : Coupon
voucher = record {
  code = 77;
  discount_type = DiscountType.percentage;
  discount_value = 1500;
  min_order_amount = 10000;
  max_uses = some 2;
  max_uses_per_customer = 1;
  uses_count = 1;
  valid_from = none;
  valid_until = some 900;
  is_active = true;
}

abbrev market : Db
market = record shop {
  variants = (40, shirt 7 33333) ∷ (41, shirt 8 66667) ∷ [];
  inventory = (40, shelf) ∷ (41, shelf) ∷ [];
  coupons = (5, voucher) ∷ [];
}

calc_discount-IsDiscount_example : IsDiscount voucher 33333 (calc_discount voucher 33333)
calc_discount-IsDiscount_example = calc_discount-IsDiscount voucher 33333

get_valid_coupon-IsUsable_example :
    Ends
      (λ row db'. (db' ≡ market) × IsUsable 500 77 33333 (some 5) market row)
      (λ _. (r : CouponRow) → ¬ (IsUsable 500 77 33333 (some 5) market r))
      (get_valid_coupon 500 77 33333 (some 5) market)
get_valid_coupon-IsUsable_example = get_valid_coupon-IsUsable 500 77 33333 (some 5) market

abbrev line : ℕ → ℕ → OrderItem
line seller subtotal = record {
  seller_id = seller;
  variant_id = 40;
  unit_price = subtotal;
  quantity = 1;
  subtotal = subtotal;
}

abbrev basket : List OrderItem
basket = line 7 33333 ∷ line 8 66667 ∷ line 7 1 ∷ []

basket-covers : 10000 ≤ lines_subtotal basket
unfolding lines_subtotal
basket-covers = omega arith

allocate-exact_example :
    (sum_of entry_amount (
          allocate 10000
            (lines_subtotal basket)
            10000
            (lines_subtotal basket)
            (seller_subtotals_from [] basket))
        + 10000
      ≡ lines_subtotal basket)
    × Within
        (allocate 10000
          (lines_subtotal basket)
          10000
          (lines_subtotal basket)
          (seller_subtotals_from [] basket))
        (seller_subtotals_from [] basket)
allocate-exact_example = allocate-exact 10000 basket basket-covers

two_shelves : (j : ℕ) (inv : ProductInventory) → lookup j market.inventory ≡ some inv → shelf ≡ inv
unfolding lookup
two_shelves j inv e = ground arith

market-OrderBooks : OrderBooks market
market-OrderBooks = record {
  stocked = λ j inv e. subst IsStock (two_shelves j inv e) (omega arith);
  orders_fresh = (omega arith, tt);
  seller_orders_fresh = (omega arith, (omega arith, tt));
  none_owed = refl;
}

abbrev purchase : CheckoutRequest
purchase = record { user_id = some 5; coupon_code = some 77; payment_method = PaymentMethod.cod }

build_order-Placed_example :
    Ends
      (λ order_id db'. Placed purchase none order_id market db')
      AnyError
      (build_order 500 purchase none ((40, 2) ∷ (41, 1) ∷ []) market)
build_order-Placed_example =
    build_order-Placed 500 purchase none ((40, 2) ∷ (41, 1) ∷ []) market market-OrderBooks

-- An unverified cash order of one unit.
abbrev waiting : Db
waiting = record market {
  orders =
      (
        1,
        record order {
          status = OrderStatus.pending_cod_verification;
          payment_method = PaymentMethod.cod;
          items = line 7 33333 ∷ [];
        },
      )
      ∷ [];
  seller_orders = (21, record (parcel 7) { status = SellerOrderStatus.pending }) ∷ [];
  payments = [];
}

cancel_order-Cancelled_example :
    Ends
      (λ _ db'. Cancelled 1 (some 5) none waiting db')
      AnyError
      (cancel_order 600 1 (some 5) none waiting)
cancel_order-Cancelled_example = cancel_order-Cancelled 600 1 (some 5) none waiting

cod_verification_timeout-TimesOut_example :
    Ends (λ _ db'. TimesOut 90000 1 waiting db') AnyError (cod_verification_timeout 90000 1 waiting)
cod_verification_timeout-TimesOut_example = cod_verification_timeout-TimesOut 90000 1 waiting

-- The part of seller 7 is on its way.
abbrev travelling : Db
travelling = record shop {
  orders = (1, record order { status = OrderStatus.shipped }) ∷ [];
  seller_orders =
      (21, record (parcel 7) { status = SellerOrderStatus.shipped }) ∷ (22, parcel 8) ∷ [];
}

travelling-Books : Books travelling
unfolding lookup
travelling-Books = record { ledgers_valid = λ k l e. absurd (ground arith); allocations_valid = tt }

update_seller_order_status-Standing_example :
    Ends
      (λ _ db'. UpdateEnds 7 21 SellerOrderStatus.delivered travelling db')
      AnyError
      (update_seller_order_status 700 7 21 SellerOrderStatus.delivered travelling)
update_seller_order_status-Standing_example =
    update_seller_order_status-Standing 700 7 21 SellerOrderStatus.delivered travelling
      travelling-Books (omega arith)

abbrev total_of : Option Order → Option ℕ
total_of none = none
total_of (some o) = some o.total

-- Two shirts of 333.33 and one of 666.67 rupees, 15 percent off, plus 200 rupees of shipping.
purchase_total :
    Ends
      (λ id db'. total_of (lookup id db'.orders) ≡ some 133333)
      Never
      (build_order 500 purchase none ((40, 2) ∷ (41, 1) ∷ []) market)
unfolding build_order calculate_checkout fetch_and_validate_variants is_bad_quantities all_entries
    checkout_lines lookup get_valid_coupon find_coupon usages calc_discount div_half_up
    div_half_even lines_subtotal seller_subtotals_from add_to allocate proposed_share bounded_share
    store_seller_orders reserve_lines reserve insert modify
purchase_total = refl

-- A guest buys one shirt with key 600, whose quote accepts any price.
abbrev call : CheckoutCall
call = record {
  request = record { user_id = none; coupon_code = none; payment_method = PaymentMethod.cod };
  key_hash = 600;
  request_hash = 601;
  quote = some (λ _ _ _ _. true);
  items = (40, 1) ∷ [];
  account_open = false;
  guest_details = true;
}

create_checkout-Answers_example :
    Ends
      (λ id db'.
        (placed : Order) × (find_by_key 600 db'.orders ≡ some (id, placed))
        × Answers 900 call id placed db')
      AnyError
      (create_checkout 500 true call market)
create_checkout-Answers_example = create_checkout-Answers 500 900 true call market market-OrderBooks
