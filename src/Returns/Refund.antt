-- ===== src/Returns/Refund.antt =====
-- The refund of a received return (`process_refund`, `_load_order_items` and `_calculate_refund_amount` of
-- services/return_service.py), requested from the payment service.
use drip_marketplace.Prelude.{
  ℕ, ◌+◌, ◌-◌, ◌*◌, Bool, not, ◌&&◌, ◌||◌, Option, none, some, List, [], ◌∷◌, length, ltb, leb,
  ◌==◌, if◌then◌else◌,
}
use drip_marketplace.Db.{
  Tx, raise_if, gets, or_raise, ◌>>=◌, ◌>>◌, Db, Text, Order, OrderItem, Return, ReturnItem,
  ReturnStatus, lookup, not_found_return, return_wrong_status, return_changed, return_data_missing,
  payment_required, estimate_changed, bad_refund_request,
}
use drip_marketplace.Money.{div_half_even}
use drip_marketplace.Texts.{strip, is_blank, any_char}
use drip_marketplace.Payments.{RefundRequest, refund, is_other}
use drip_marketplace.Returns.{ReturnReview, has_status, is_other_return}
use drip_marketplace.Returns.Request.{find_item, has_repeated_item}

abbrev pub add_price : ℕ → Option OrderItem → Option ℕ → Option ℕ
add_price quantity none rest = none
add_price quantity (some item) none = none
add_price quantity (some item) (some rest) = some (item.unit_price * quantity + rest)

-- The sum of price and quantity over the items, when they are all there.
unfoldable pub item_total : List ReturnItem → Db → Option ℕ
item_total [] db = some 0
item_total (i ∷ items) db = add_price i.quantity (find_item i.item db) (item_total items db)

-- `_load_order_items`: each item is found once.
abbrev pub load_items : List ReturnItem → Db → Option ℕ
load_items items db = if has_repeated_item items then none else item_total items db

-- `_calculate_refund_amount`: the items' share of what the order's merchandise cost after its discount, rounded
-- by the default context. The discount is at most the subtotal.
unfoldable pub refund_amount : ℕ → Order → ℕ
refund_amount items order =
    div_half_even (items * (order.subtotal - order.discount_amount)) order.subtotal

-- "Received product return"
abbrev pub default_reason : Text
default_reason =
    82 ∷ 101 ∷ 99 ∷ 101 ∷ 105 ∷ 118 ∷ 101 ∷ 100 ∷ 32 ∷ 112 ∷ 114 ∷ 111 ∷ 100 ∷ 117 ∷ 99 ∷ 116 ∷ 32
    ∷ 114 ∷ 101 ∷ 116 ∷ 117 ∷ 114 ∷ 110 ∷ []

-- `payload.admin_note or ...`
abbrev pub reason_or_default : Option Text → Text
reason_or_default none = default_reason
reason_or_default (some note) = if is_blank note then default_reason else note

-- "return:" and the identifier, whose digits stand as one symbol.
abbrev pub return_key : ℕ → Text
return_key id = 114 ∷ 101 ∷ 116 ∷ 117 ∷ 114 ∷ 110 ∷ 58 ∷ id ∷ []

abbrev pub is_control : ℕ → Bool
is_control char = (ltb char 32 && not (char == 10 || (char == 13 || char == 9))) || char == 127

-- The checks of the schema `RefundRequest`, on the amount and on the reason.
unfoldable pub is_bad_request : ℕ → Text → Bool
is_bad_request amount reason =
    (not (ltb 0 amount) || ltb 999999999999 amount)
    || (not (leb 5 (length reason) && leb (length reason) 500)
        || (ltb (length (strip reason)) 5 || any_char is_control (strip reason)))

abbrev pub return_request : ℕ → ℕ → Option Text → RefundRequest
return_request id amount note = record {
  idempotency_key = some (return_key id);
  amount = amount;
  reason = strip (reason_or_default note);
  expected_remaining = none;
}

-- The request, once the amount is known.
unfoldable pub request_refund : ℕ → ℕ → ReturnReview → Return → Tx ℕ
request_refund id amount review r = do
  raise_if (is_other_return review r) return_changed
  raise_if (is_other review.expected_refund_amount amount) estimate_changed
  raise_if (is_bad_request amount (reason_or_default review.admin_note)) bad_refund_request
  refund r.order_id (return_request id amount review.admin_note) (some id)

-- `process_refund`; the answer is the refund's identifier.
unfoldable pub process_refund : ℕ → ReturnReview → Tx ℕ
process_refund id review = do
  row ← gets (λ db. lookup id db.returns)
  r ← or_raise row not_found_return
  raise_if (not (has_status ReturnStatus.received r)) return_wrong_status
  payment_row ← gets (λ db. lookup r.order_id db.payments)
  payment ← or_raise payment_row payment_required
  order_row ← gets (λ db. lookup r.order_id db.orders)
  order ← or_raise order_row return_data_missing
  loaded ← gets (load_items r.items)
  items ← or_raise loaded return_data_missing
  raise_if (not (ltb 0 order.subtotal)) return_data_missing
  request_refund id (refund_amount items order) review r
