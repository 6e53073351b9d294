-- ===== src/Payments/Collection.antt =====
-- The collection of cash on delivery (`record_cod_collection` and `_cod_collection_blockers` of
-- services/payment_service.py).
pub mod Collected
use drip_marketplace.Prelude.{
  sort_by, ℕ, ◌+◌, ◌*◌, Bool, true, false, not, ◌&&◌, ◌||◌, Option, none, some, List, [], ◌∷◌, map,
  length, sum_of, select, ltb, leb, ◌==◌, is_some, if◌then◌else◌,
}
use drip_marketplace.Db.{
  Tx, ok, pure, raise_if, gets, modify_db, or_raise, ◌>>=◌, ◌>>◌, Db, Text, Payment, PaymentStatus,
  CollectionCallback, Order, OrderItem, OrderStatus, SellerOrder, SellerOrderStatus, is_completed,
  lookup, modify, not_found_payment, not_found_order, bad_transfer_reference,
  collect_after_delivery, collection_mismatch, collected_with_other_reference, payment_changed,
  order_changed, collection_blocked, collection_incomplete,
}
use drip_marketplace.Texts.{strip, any_char, is_blank, same_text, same_optional}
use drip_marketplace.Commission.Settle.Every.{settle_every}
use drip_marketplace.Orders.Expiry.{is_cod}
use drip_marketplace.Payments.{pkr, is_other}

abbrev pub SellerOrderRow : Type 0
SellerOrderRow = ℕ × SellerOrder

-- The schema bounds the raw reference, and then the stripped one.
unfoldable pub is_bad_collection : Text → Bool
is_bad_collection reference =
    not (leb 3 (length reference) && leb (length reference) 255)
    || (ltb (length (strip reference)) 3
        || any_char (λ char. ltb char 32 || char == 127) (strip reference))

-- "cod"
abbrev pub cod : Text
cod = 99 ∷ 111 ∷ 100 ∷ []

abbrev pub is_pending : PaymentStatus → Bool
is_pending PaymentStatus.pending = true
is_pending _ = false

abbrev pub was_delivered : OrderStatus → Bool
was_delivered OrderStatus.delivered = true
was_delivered OrderStatus.completed = true
was_delivered _ = false

abbrev pub is_part_delivered : SellerOrderStatus → Bool
is_part_delivered SellerOrderStatus.delivered = true
is_part_delivered _ = false

unfoldable pub any_of {ℓ} : {A : Type ℓ} → (A → Bool) → List A → Bool
any_of p [] = false
any_of p (x ∷ xs) = p x || any_of p xs

abbrev pub is_cash : Payment → Order → Bool
is_cash payment order = same_text payment.method cod && is_cod order.payment_method

-- A seller that occurs twice.
unfoldable pub has_repeated_seller : List SellerOrderRow → Bool
has_repeated_seller [] = false
has_repeated_seller (row ∷ rows) =
    any_of (λ other. other.1.seller_id == row.1.seller_id) rows || has_repeated_seller rows

-- The items of a seller, summed.
abbrev pub items_of : ℕ → List OrderItem → ℕ
items_of seller items = sum_of (λ item. if item.seller_id == seller then item.subtotal else 0) items

-- `subtotal - discount + shipping != total` is written without the subtraction.
unfoldable pub has_bad_amounts : Order → List SellerOrderRow → Bool
has_bad_amounts order rows =
    not (order.subtotal + order.shipping_fee == order.total + order.discount_amount)
    || (not (sum_of (λ item. item.subtotal) order.items == order.subtotal)
        || (not (sum_of (λ row. row.1.subtotal) rows == order.subtotal)
            || (any_of (λ item. not (item.unit_price * item.quantity == item.subtotal)) order.items
                || (any_of (λ item. not (any_of (λ row. row.1.seller_id == item.seller_id) rows))
                      order.items
                    || (has_repeated_seller rows
                        || any_of
                            (λ row. not (items_of row.1.seller_id order.items == row.1.subtotal))
                            rows)))))

abbrev pub is_none_left {ℓ} : {A : Type ℓ} → List A → Bool
is_none_left [] = true
is_none_left _ = false

-- A reference that is there and is not empty.
abbrev pub has_text : Option Text → Bool
has_text none = false
has_text (some text) = not (is_blank text)

-- Whether `_cod_collection_blockers` finds anything.
unfoldable pub is_blocked : Payment → Order → List SellerOrderRow → Bool
is_blocked payment order rows =
    not (is_cash payment order)
    || (not (is_pending payment.status)
        || (not (
              same_text payment.currency pkr
              && (ltb 0 payment.amount && payment.amount == order.total))
            || (not (was_delivered order.status)
                || ((is_none_left order.items
                      || (is_none_left rows
                          || any_of (λ row. not (is_part_delivered row.1.status)) rows))
                    || (has_bad_amounts order rows
                        || (is_pending payment.status
                            && (is_some payment.paid_at || has_text payment.gateway_reference)))))))

-- `_cod_collection_receipt`
abbrev pub collection_receipt : Payment → Tx (Unit {0})
collection_receipt payment = do
  raise_if (not (is_some payment.paid_at) || not (has_text payment.gateway_reference))
      collection_incomplete
  pure tt

abbrev pub collected_payment : ℕ → Text → Payment → Payment
collected_payment now reference payment = record payment {
  status = PaymentStatus.completed;
  paid_at = some now;
  gateway_reference = some reference;
}

abbrev pub collection_callback : ℕ → ℕ → ℕ → Text → Payment → CollectionCallback
collection_callback now payment_id admin_id reference payment = record {
  payment_id = payment_id;
  recorded_by = admin_id;
  reference = reference;
  amount = payment.amount;
  paid_at = now;
}

abbrev pub store_collection : ℕ → ℕ → ℕ → Text → Payment → Db → Db
store_collection now payment_id admin_id reference payment db = record db {
  payments = modify payment_id (collected_payment now reference) db.payments;
  callbacks = collection_callback now payment_id admin_id reference payment ∷ db.callbacks;
}

-- `sorted(..., key=lambda row: (row.seller_id, row.id))`
abbrev pub is_first : SellerOrderRow → SellerOrderRow → Bool
is_first a b = ltb a.1.seller_id b.1.seller_id || (a.1.seller_id == b.1.seller_id && leb a.0 b.0)

unfoldable pub sorted_rows : List SellerOrderRow → List SellerOrderRow
sorted_rows rows = sort_by is_first rows

abbrev pub rows_of : ℕ → Db → List SellerOrderRow
rows_of order_id db = select (λ row. row.1.order_id == order_id) db.seller_orders

abbrev pub row_id : SellerOrderRow → ℕ
row_id row = row.0

-- What was recorded before is answered with its receipt, when the reference is the same.
unfoldable pub collected_before : Text → Payment → Order → Tx (Unit {0})
collected_before reference payment order = do
  raise_if (not (same_text payment.currency pkr && payment.amount == order.total))
      collection_mismatch
  raise_if (not (same_optional payment.gateway_reference (some reference)))
      collected_with_other_reference
  collection_receipt payment

-- `was_changed` tells whether the order's `updated_at` is another than the one expected.
unfoldable pub collect_now : ℕ → ℕ → ℕ → Text → Option ℕ → Bool → Payment → Order → Tx (Unit {0})
collect_now now payment_id admin_id reference expected was_changed payment order = do
  raise_if (is_other expected payment.amount) payment_changed
  raise_if was_changed order_changed
  rows ← gets (rows_of payment_id)
  raise_if (is_blocked payment order rows) collection_blocked
  modify_db (store_collection now payment_id admin_id reference payment)
  settle_every now (map row_id (sorted_rows rows))
  collection_receipt (collected_payment now reference payment)

abbrev pub collect : ℕ → ℕ → ℕ → Text → Option ℕ → Bool → Payment → Order → Tx (Unit {0})
collect now payment_id admin_id reference expected was_changed payment order = do
  raise_if (not (is_cash payment order && was_delivered order.status)) collect_after_delivery
  if is_completed payment.status
      then collected_before reference payment order
      else collect_now now payment_id admin_id reference expected was_changed payment order

-- The payment of an order has the order's number.
unfoldable pub record_cod_collection : ℕ → ℕ → ℕ → Text → Option ℕ → Bool → Tx (Unit {0})
record_cod_collection now payment_id admin_id reference expected was_changed = do
  raise_if (is_bad_collection reference) bad_transfer_reference
  row ← gets (λ db. lookup payment_id db.payments)
  payment ← or_raise row not_found_payment
  order_row ← gets (λ db. lookup payment_id db.orders)
  order ← or_raise order_row not_found_order
  collect now payment_id admin_id (strip reference) expected was_changed payment order
