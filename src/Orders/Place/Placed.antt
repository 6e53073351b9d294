-- ===== src/Orders/Place/Placed.antt =====
-- A placed order: its price adds up, its sellers are owed exactly what the customer pays for goods, and
-- its units are reserved.
use drip_marketplace.Prelude.{
  ℕ, ◌+◌, ◌≤◌, ◌≡◌, refl, ap, ◌∙◌, inl, inr, not, ◌&&◌, Option, none, some, List, arith, sum_of,
  ltb, is_some, Bool-cases, Option-cases,
}
use drip_marketplace.Db.{
  Db, Event, ProductInventory, total, Order, Ends, Ends-bind, Ends-then, Ends-guard, Ends-weaken,
  Below, Below-suc, insert, lookup, lookup-insert_self,
}
use drip_marketplace.Commission.Refund.Allocated.{AnyError}
use drip_marketplace.Outbox.{queued}
use drip_marketplace.Inventory.Invariant.{IsStocked}
use drip_marketplace.Coupon.{CouponRow, get_valid_coupon}
use drip_marketplace.Coupon.Discount.{calc_discount-IsDiscount, IsUsable, get_valid_coupon-IsUsable}
use drip_marketplace.Checkout.{
  Entry, Calculation, calculation, calculate_checkout, fetch_and_validate_variants,
  is_bad_quantities, all_entries, offered, in_stock, lines_subtotal,
}
use drip_marketplace.Checkout.Allocation.{entry_amount, allocate-exact}
use drip_marketplace.Orders.Closed.{reserved_total, stock_total, quantity_total}
use drip_marketplace.Orders.Expiry.{is_cod}
use drip_marketplace.Orders.Place.{
  CheckoutRequest, CheckoutGuard, coupon_for, discount_of, amount_due, refuses, key_hash_of,
  request_hash_of, is_payfast, new_order, store_order, nets, reserve_lines, spend_coupon,
  write_order, build_order,
}
use drip_marketplace.Orders.Place.Sellers.{
  owed, SellersStored, store_seller_orders-SellersStored, Reserved, reserve_lines-Reserved,
}

-- Keys and references lie below the next identifier, and the stock rows are valid.
pub record OrderBooks (db : Db) : Type 0 where
  pub stocked : IsStocked db
  pub orders_fresh : Below db.next_id db.orders
  pub seller_orders_fresh : Below db.next_id db.seller_orders
  pub none_owed : owed db.next_id db ≡ 0

-- What is true of a new order.
pub record Placed (request : CheckoutRequest) (guard : Option CheckoutGuard) (order_id : ℕ)
    (db db' : Db) : Type 0 where
  pub order : Order
  pub stored : lookup order_id db'.orders ≡ some order
  pub rows : db'.orders ≡ insert order_id order db.orders
  pub fresh : order_id ≡ db.next_id
  pub owner : order.user_id ≡ request.user_id
  pub keyed :
      (order.checkout_key_hash ≡ key_hash_of guard)
      × (order.checkout_request_hash ≡ request_hash_of guard)
  pub discounted : order.discount_amount ≤ order.subtotal
  pub priced : order.total + order.discount_amount ≡ order.subtotal + order.shipping_fee
  pub itemised : order.subtotal ≡ lines_subtotal order.items
  pub owed_exactly : owed order_id db' + order.discount_amount ≡ order.subtotal
  pub reserved : reserved_total db' ≡ reserved_total db + quantity_total order.items
  pub stock : stock_total db' ≡ stock_total db
  pub stocked : IsStocked db'

validate-frame :
    (entries : List Entry) (db : Db)
    → Ends (λ _ t. t ≡ db) AnyError (fetch_and_validate_variants entries db)
unfolding fetch_and_validate_variants
validate-frame entries db =
    Ends-guard P AnyError db (is_bad_quantities entries) _ _ (λ _. tt)
      (λ _.
        Ends-guard P AnyError db
          (not (all_entries (λ entry. offered (lookup entry.0 db.variants)) entries)) _ _ (λ _. tt)
          (λ _.
            elim (Bool-cases
              (all_entries (λ entry. in_stock entry.1 (lookup entry.0 db.inventory)) entries)) [
                | inl stocked ↦ rw (stocked, Ends) refl
                | inr short ↦ rw (short, Ends) tt
              ]))
  where
    P : Unit {0} → Db → Type 0
    P _ t = t ≡ db

calculate-frame :
    (entries : List Entry) (db : Db)
    → Ends (λ c t. (t ≡ db) × (c ≡ calculation entries db)) AnyError (calculate_checkout entries db)
unfolding calculate_checkout
calculate-frame entries db =
    Ends-then (fetch_and_validate_variants entries) (λ _ t. t ≡ db)
      (λ c t. (t ≡ db) × (c ≡ calculation entries db)) AnyError db _ (validate-frame entries db)
      (λ _ t same. (same, rw same refl))

coupon_for-frame :
    (now subtotal : ℕ) (request : CheckoutRequest) (db : Db)
    → Ends (λ _ t. t ≡ db) AnyError (coupon_for now subtotal request db)
coupon_for-frame now subtotal request db = elim (Option-cases request.coupon_code) [
  | inl plain ↦ rw (plain, Ends) refl
  | inr (code, given) ↦ rw given (
      Ends-guard P AnyError db (not (is_some request.user_id)) _ _ (λ _. tt)
        (λ _.
          Ends-bind (get_valid_coupon now code subtotal request.user_id)
            (λ row t. (t ≡ db) × IsUsable now code subtotal request.user_id db row) P AnyError db _
            (Ends-weaken _ (λ row t. (t ≡ db) × IsUsable now code subtotal request.user_id db row) _
              AnyError (get_valid_coupon now code subtotal request.user_id db)
              (get_valid_coupon-IsUsable now code subtotal request.user_id db) (λ _ _ h. h)
              (λ _ _. tt))
            (λ row t h. h.0)))
]
  where
    P : Option CouponRow → Db → Type 0
    P _ t = t ≡ db

discount_of-le : (coupon : Option CouponRow) (subtotal : ℕ) → discount_of coupon subtotal ≤ subtotal
discount_of-le none subtotal = omega arith
discount_of-le (some row) subtotal = (calc_discount-IsDiscount row.1 subtotal).within

-- The coupon's use leaves orders and stock alone.
spend-tables :
    (coupon : Option CouponRow) (user_id : Option ℕ) (order_id : ℕ) (t : Db)
    → ((spend_coupon coupon user_id order_id t).orders ≡ t.orders)
      × ((spend_coupon coupon user_id order_id t).seller_orders ≡ t.seller_orders)
      × ((spend_coupon coupon user_id order_id t).inventory ≡ t.inventory)
spend-tables none user_id order_id t = (refl, refl, refl)
spend-tables (some row) user_id order_id t = (refl, refl, refl)

module _ (now : ℕ) (request : CheckoutRequest) (guard : Option CheckoutGuard) (entries : List Entry)
    (db : Db) (b : OrderBooks db) where
  write_order-Placed :
      (coupon : Option CouponRow)
      → Ends
          (λ order_id db'. Placed request guard order_id db db')
          AnyError
          (write_order now request guard (calculation entries db) coupon db)
  write_order-Placed coupon =
      Ends-then (reserve_lines c.lines) (λ _ t. Reserved (quantity_total c.lines) stored t)
        (λ order_id db'. Placed request guard order_id db db') AnyError stored _
        (reserve_lines-Reserved c.lines stored
          (rw (ap (λ (d : Db). d.inventory) sellers.frame) b.stocked))
        (λ _ t r. placed t r)
    where
      c : Calculation
      c = calculation entries db

      discount : ℕ
      discount = discount_of coupon c.subtotal

      order : Order
      order = new_order now request guard c coupon

      base : Db
      base = record db { orders = insert db.next_id order db.orders; next_id = db.next_id + 1 }

      stored : Db
      stored = store_order db.next_id order (nets c discount) db

      sellers : SellersStored db.next_id (nets c discount) base stored
      sellers =
          store_seller_orders-SellersStored db.next_id (nets c discount) base
            (Below-suc db.next_id db.seller_orders b.seller_orders_fresh)

      le : discount ≤ c.subtotal
      le = discount_of-le coupon c.subtotal

      split : sum_of entry_amount (nets c discount) + discount ≡ c.subtotal
      split = (allocate-exact discount c.lines le).0

      placed :
          (t : Db)
          → Reserved (quantity_total c.lines) stored t
          → Placed request guard db.next_id db
              (record (spend_coupon coupon request.user_id db.next_id t) {
                outbox =
                    queued
                      (Event.order_placed db.next_id)
                      (spend_coupon coupon request.user_id db.next_id t).outbox;
              })
      placed t r =
          let kept = spend-tables coupon request.user_id db.next_id t in
          let orders : (spend_coupon coupon request.user_id db.next_id t).orders ≡ base.orders =
            kept.0 ∙ ap (λ (d : Db). d.orders) r.frame ∙ ap (λ (d : Db). d.orders) sellers.frame in
          let parts : (spend_coupon coupon request.user_id db.next_id t).seller_orders
              ≡ stored.seller_orders =
            kept.1 ∙ ap (λ (d : Db). d.seller_orders) r.frame in
          let shelves : (spend_coupon coupon request.user_id db.next_id t).inventory ≡ t.inventory =
            kept.2 in
          let before : stored.inventory ≡ db.inventory =
            ap (λ (d : Db). d.inventory) sellers.frame in
          record {
            order = order;
            stored = rw orders (lookup-insert_self db.next_id order db.orders);
            rows = orders;
            fresh = refl;
            owner = refl;
            keyed = (refl, refl);
            discounted = le;
            priced = omega (arith, le);
            itemised = refl;
            owed_exactly = rw parts (omega (arith, sellers.adds_up, b.none_owed, split));
            reserved = rw shelves (
                r.units_reserved
                ∙ ap (λ i. total (λ (x : ProductInventory). x.reserved) i + quantity_total c.lines)
                    before);
            stock =
                rw shelves (r.stock ∙ ap (λ i. total (λ (x : ProductInventory). x.stock) i) before);
            stocked = rw shelves r.stocked;
          }

  -- A checkout that goes through makes an order whose total is its merchandise less its discount plus its
  -- shipping, whose sellers are owed exactly the merchandise less the discount, and whose units are all
  -- reserved, out of a stock that stays the same and keeps its constraints.
  pub build_order-Placed :
      Ends
        (λ order_id db'. Placed request guard order_id db db')
        AnyError
        (build_order now request guard entries db)
  unfolding build_order
  build_order-Placed =
      Ends-bind (calculate_checkout entries) (λ c t. (t ≡ db) × (c ≡ calculation entries db)) P
        AnyError db _ (calculate-frame entries db)
        (λ c t made.
          rw (made.0, made.1)
            (Ends-bind (coupon_for now (calculation entries db).subtotal request) (λ _ u. u ≡ db) P
              AnyError db _ (coupon_for-frame now (calculation entries db).subtotal request db)
              (λ coupon u same. rw same (
                Ends-guard P AnyError db
                  (is_payfast request.payment_method && not db.settings.payfast_enabled) _ _
                  (λ _. tt)
                  (λ _.
                    Ends-guard P AnyError db
                      (is_cod request.payment_method
                        && ltb db.settings.max_cod_order_amount (due coupon))
                      _ _ (λ _. tt)
                      (λ _.
                        Ends-guard P AnyError db
                          (refuses guard (calculation entries db)
                            (discount_of coupon (calculation entries db).subtotal) request)
                          _ _ (λ _. tt) (λ _. write_order-Placed coupon)))))))
    where
      due : Option CouponRow → ℕ
      due coupon =
          amount_due (calculation entries db) (discount_of coupon (calculation entries db).subtotal)

      P : ℕ → Db → Type 0
      P order_id db' = Placed request guard order_id db db'
