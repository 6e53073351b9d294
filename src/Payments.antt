-- ===== src/Payments.antt =====
-- Requests for refunds of a payment (`refund` of services/payment_service.py).
pub mod Collection
pub mod Confirm
pub mod Frame
pub mod Gateway
pub mod Keys
pub mod Requested
pub mod Retried
use drip_marketplace.Prelude.{
  ℕ, ◌+◌, ◌-◌, Bool, true, false, not, ◌&&◌, ◌||◌, Option, none, some, List, [], ◌∷◌, ltb, ◌==◌,
  is_some, if◌then◌else◌,
}
use drip_marketplace.Db.{
  Tx, ok, pure, raise_if, gets, modify_db, or_raise, ◌>>=◌, ◌>>◌, Db, Text, Payment, Refund,
  is_completed, lookup, insert, modify, total, not_found_payment, refund_key_reused,
  refund_linked_elsewhere, legacy_refund, not_refundable, only_rupees, refund_balance_changed,
  exceeds_refundable,
}
use drip_marketplace.Texts.{same_text, same_optional}

abbrev pub RefundRow : Type 0
RefundRow = ℕ × Refund

-- What an administrator asks for; the schema has checked that the amount is positive and that a key has
-- eight characters at least.
pub record RefundRequest : Type 0 where
  pub idempotency_key : Option Text
  pub amount : ℕ
  pub reason : Text
  pub expected_remaining : Option ℕ

-- "PKR"
abbrev pub pkr : Text
pkr = 80 ∷ 75 ∷ 82 ∷ []

abbrev pub has_key : ℕ → Text → Refund → Bool
has_key payment_id key r = r.order_id == payment_id && same_optional r.idempotency_key (some key)

-- A payment and a key are unique together.
unfoldable pub find_refund : ℕ → Text → List RefundRow → Option RefundRow
find_refund payment_id key [] = none
find_refund payment_id key (row ∷ rows) =
    if has_key payment_id key row.1 then some row else find_refund payment_id key rows

abbrev pub find_request : ℕ → Option Text → List RefundRow → Option RefundRow
find_request payment_id none rows = none
find_request payment_id (some key) rows = find_refund payment_id key rows

abbrev pub part_of : ℕ → Refund → ℕ
part_of payment_id r = if r.order_id == payment_id then r.amount else 0

-- `get_total_refunded`: requested refunds count as well as confirmed ones.
abbrev pub total_refunded : ℕ → Db → ℕ
total_refunded payment_id db = total (part_of payment_id) db.refunds

abbrev pub with_return : ℕ → Refund → Refund
with_return id r = record r { return_id = some id }

abbrev pub set_return : ℕ → ℕ → Db → Db
set_return refund_id id db = record db { refunds = modify refund_id (with_return id) db.refunds }

-- A request of the former flow in two commits is linked to its return.
unfoldable pub link_to : ℕ → RefundRow → Option ℕ → Tx (Unit {0})
link_to id row (some other) = raise_if (not (other == id)) refund_linked_elsewhere
link_to id row none = do
  raise_if (is_some row.1.processed_at) legacy_refund
  modify_db (set_return row.0 id)

abbrev pub link_return : Option ℕ → RefundRow → Tx (Unit {0})
link_return none row = pure tt
link_return (some id) row = link_to id row row.1.return_id

unfoldable pub reuse_request : RefundRequest → Option ℕ → RefundRow → Tx ℕ
reuse_request request return_id row = do
  raise_if
      (not (row.1.amount == request.amount)
        || not (same_optional row.1.reason (some request.reason)))
      refund_key_reused
  link_return return_id row
  pure row.0

abbrev pub new_refund : ℕ → RefundRequest → Option ℕ → Refund
new_refund payment_id request return_id = record {
  order_id = payment_id;
  return_id = return_id;
  amount = request.amount;
  idempotency_key = request.idempotency_key;
  reason = some request.reason;
  processed_at = none;
  gateway_ref = none;
  processed_by = none;
}

abbrev pub store_refund : ℕ → RefundRequest → Option ℕ → Db → Db
store_refund payment_id request return_id db = record db {
  refunds = insert db.next_id (new_refund payment_id request return_id) db.refunds;
  next_id = db.next_id + 1;
}

abbrev pub is_other : Option ℕ → ℕ → Bool
is_other none remaining = false
is_other (some expected) remaining = not (remaining == expected)

-- `payload.amount > payment.amount - reserved` of exact decimals is a sum here.
unfoldable pub request_new : ℕ → RefundRequest → Option ℕ → Payment → Tx ℕ
request_new payment_id request return_id payment = do
  raise_if (not (is_completed payment.status)) not_refundable
  raise_if (not (same_text payment.currency pkr)) only_rupees
  reserved ← gets (total_refunded payment_id)
  raise_if (is_other request.expected_remaining (payment.amount - reserved)) refund_balance_changed
  raise_if (ltb payment.amount (request.amount + reserved)) exceeds_refundable
  number ← gets (λ db. db.next_id)
  modify_db (store_refund payment_id request return_id)
  pure number

abbrev pub reuse_or_request : ℕ → RefundRequest → Option ℕ → Payment → Option RefundRow → Tx ℕ
reuse_or_request payment_id request return_id payment (some row) =
    reuse_request request return_id row
reuse_or_request payment_id request return_id payment none =
    request_new payment_id request return_id payment

-- The answer is the refund's identifier.
unfoldable pub refund : ℕ → RefundRequest → Option ℕ → Tx ℕ
refund payment_id request return_id = do
  row ← gets (λ db. lookup payment_id db.payments)
  payment ← or_raise row not_found_payment
  existing ← gets (λ db. find_request payment_id request.idempotency_key db.refunds)
  reuse_or_request payment_id request return_id payment existing
