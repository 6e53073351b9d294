-- ===== src/Orders/Place.antt =====
-- A checkout becomes an order (`_build_order`): its price, its rows, its reservations and its coupon.
pub mod Sellers
pub mod Placed
use drip_marketplace.Prelude.{
  ℕ, ◌+◌, ◌-◌, Bool, true, false, not, ◌&&◌, Option, none, some, List, [], ◌∷◌, ltb, is_some,
  if◌then◌else◌,
}
use drip_marketplace.Db.{
  Tx, ok, pure, raise, raise_if, gets, modify_db, ◌>>=◌, ◌>>◌, Db, Order, OrderItem, OrderStatus,
  SellerOrder, SellerOrderStatus, PaymentMethod, Coupon, CouponUsage, Event, insert, modify,
  sign_in_for_coupon, payfast_unavailable, cod_limit, quote_changed, stock_changed,
}
use drip_marketplace.Inventory.{reserve}
use drip_marketplace.Outbox.{queue_notification}
use drip_marketplace.Coupon.{CouponRow, get_valid_coupon, calc_discount}
use drip_marketplace.Checkout.{Entry, Calculation, calculate_checkout, allocate, merge_items}
use drip_marketplace.Orders.Expiry.{is_cod}

-- What a checkout asks for, besides its items.
pub record CheckoutRequest : Type 0 where
  pub user_id : Option ℕ
  pub coupon_code : Option ℕ
  pub payment_method : PaymentMethod

-- `CheckoutGuard`: the two hashes of an idempotent checkout, and whether the accepted quote's fingerprint
-- is that of the prices of now. The fingerprint is a SHA-256 of them, which is not modelled.
pub record CheckoutGuard : Type 0 where
  pub key_hash : ℕ
  pub request_hash : ℕ
  pub accepts : Calculation → ℕ → Option ℕ → PaymentMethod → Bool

abbrev pub coupon_for : ℕ → ℕ → CheckoutRequest → Tx (Option CouponRow)
coupon_for now subtotal request = elim request.coupon_code [
  | none ↦ pure none
  | some code ↦ (do
    raise_if (not (is_some request.user_id)) sign_in_for_coupon
    row ← get_valid_coupon now code subtotal request.user_id
    pure (some row))
]

abbrev pub discount_of : Option CouponRow → ℕ → ℕ
discount_of none subtotal = 0
discount_of (some row) subtotal = calc_discount row.1 subtotal

abbrev pub coupon_id_of : Option CouponRow → Option ℕ
coupon_id_of none = none
coupon_id_of (some row) = some row.0

abbrev pub is_payfast : PaymentMethod → Bool
is_payfast PaymentMethod.payfast = true
is_payfast _ = false

-- The amount due. The discount is at most the subtotal.
abbrev pub amount_due : Calculation → ℕ → ℕ
amount_due c discount = c.subtotal - discount + c.shipping_fee

abbrev pub refuses : Option CheckoutGuard → Calculation → ℕ → CheckoutRequest → Bool
refuses none c discount request = false
refuses (some guard) c discount request =
    not (guard.accepts c discount request.coupon_code request.payment_method)

abbrev pub key_hash_of : Option CheckoutGuard → Option ℕ
key_hash_of none = none
key_hash_of (some guard) = some guard.key_hash

abbrev pub request_hash_of : Option CheckoutGuard → Option ℕ
request_hash_of none = none
request_hash_of (some guard) = some guard.request_hash

abbrev pub first_status : PaymentMethod → OrderStatus
first_status method =
    if is_cod method then OrderStatus.pending_cod_verification else OrderStatus.pending_payment

abbrev pub new_order :
    ℕ → CheckoutRequest → Option CheckoutGuard → Calculation → Option CouponRow → Order
new_order now request guard c coupon = record {
  user_id = request.user_id;
  status = first_status request.payment_method;
  subtotal = c.subtotal;
  discount_amount = discount_of coupon c.subtotal;
  shipping_fee = c.shipping_fee;
  total = amount_due c (discount_of coupon c.subtotal);
  payment_method = request.payment_method;
  coupon_id = coupon_id_of coupon;
  checkout_key_hash = key_hash_of guard;
  checkout_request_hash = request_hash_of guard;
  created_at = now;
  items = c.lines;
}

abbrev pub new_seller_order : ℕ → ℕ → ℕ → SellerOrder
new_seller_order order_id seller_id subtotal = record {
  order_id = order_id;
  seller_id = seller_id;
  status = SellerOrderStatus.pending;
  subtotal = subtotal;
  shipped_at = none;
  delivered_at = none;
}

abbrev pub store_seller_order : ℕ → Entry → Db → Db
store_seller_order order_id entry db = record db {
  seller_orders = insert db.next_id (new_seller_order order_id entry.0 entry.1) db.seller_orders;
  next_id = db.next_id + 1;
}

unfoldable pub store_seller_orders : ℕ → List Entry → Db → Db
store_seller_orders order_id [] db = db
store_seller_orders order_id (entry ∷ entries) db =
    store_seller_orders order_id entries (store_seller_order order_id entry db)

abbrev pub nets : Calculation → ℕ → List Entry
nets c discount = allocate discount c.subtotal discount c.subtotal c.seller_subtotals

-- The INSERTs of the order, its items and its seller orders.
abbrev pub store_order : ℕ → Order → List Entry → Db → Db
store_order order_id order entries db =
    store_seller_orders order_id entries
      (record db { orders = insert order_id order db.orders; next_id = order_id + 1 })

-- One conditional UPDATE for each line.
unfoldable pub reserve_lines : List OrderItem → Tx (Unit {0})
reserve_lines [] = pure tt
reserve_lines (line ∷ lines) = do
  success ← reserve line.variant_id line.quantity
  raise_if (not success) stock_changed
  reserve_lines lines

abbrev pub user_number : Option ℕ → ℕ
user_number none = 0
user_number (some user_id) = user_id

-- The coupon's use; only an account has a coupon here.
abbrev pub spend_coupon : Option CouponRow → Option ℕ → ℕ → Db → Db
spend_coupon none user_id order_id db = db
spend_coupon (some row) user_id order_id db = record db {
  coupon_usages =
      record { coupon_id = row.0; user_id = user_number user_id; order_id = order_id }
      ∷ db.coupon_usages;
  coupons =
      modify row.0 (λ coupon. record coupon { uses_count = coupon.uses_count + 1 }) db.coupons;
}

-- The writes, once the price is accepted.
abbrev pub write_order :
    ℕ → CheckoutRequest → Option CheckoutGuard → Calculation → Option CouponRow → Tx ℕ
write_order now request guard c coupon = do
  order_id ← gets (λ db. db.next_id)
  modify_db (
      store_order order_id (new_order now request guard c coupon)
        (nets c (discount_of coupon c.subtotal)))
  reserve_lines c.lines
  modify_db (spend_coupon coupon request.user_id order_id)
  queue_notification (Event.order_placed order_id)
  pure order_id

-- The order's identifier. The order number, for display, is left out.
unfoldable pub build_order : ℕ → CheckoutRequest → Option CheckoutGuard → List Entry → Tx ℕ
build_order now request guard entries = do
  c ← calculate_checkout entries
  coupon ← coupon_for now c.subtotal request
  policy ← gets (λ db. db.settings)
  raise_if (is_payfast request.payment_method && not policy.payfast_enabled) payfast_unavailable
  raise_if
      (is_cod request.payment_method
        && ltb policy.max_cod_order_amount (amount_due c (discount_of coupon c.subtotal)))
      cod_limit
  raise_if (refuses guard c (discount_of coupon c.subtotal) request) quote_changed
  write_order now request guard c coupon

-- `create_guest_order`
abbrev pub create_guest_order : ℕ → CheckoutRequest → Option CheckoutGuard → List Entry → Tx ℕ
create_guest_order now request guard items =
    build_order now (record request { user_id = none }) guard (merge_items items)
