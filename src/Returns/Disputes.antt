-- ===== src/Returns/Disputes.antt =====
-- Disputes about rejected returns (`open_dispute`, `add_message`, `add_admin_message` and `resolve_dispute`
-- of services/return_service.py, with the dispute repository). A dispute has the number of its return.
use drip_marketplace.Prelude.{
  ℕ, Bool, true, false, not, ◌||◌, Option, none, some, [], ◌∷◌, ◌++◌, length, ltb, ◌==◌, is_some,
  if◌then◌else◌,
}
use drip_marketplace.Db.{
  Tx, pure, raise_if, gets, modify_db, or_raise, ◌>>=◌, ◌>>◌, Db, Text, Return, ReturnStatus,
  Dispute, DisputeMessage, DisputeStatus, lookup, not_found_user, not_found_return,
  not_found_dispute, dispute_not_allowed, dispute_exists, dispute_resolved, dispute_changed,
  blank_message, short_note, rejected_return_required, return_data_missing,
}
use drip_marketplace.Texts.{strip, is_blank}
use drip_marketplace.Returns.{has_status, customer_return, update_return, update_status}
use drip_marketplace.Returns.Request.{validate_return_quantities}

abbrev pub dispute_code : DisputeStatus → ℕ
dispute_code DisputeStatus.open_dispute = 0
dispute_code DisputeStatus.under_review = 1
dispute_code DisputeStatus.resolved_customer = 2
dispute_code DisputeStatus.resolved_seller = 3
dispute_code DisputeStatus.closed = 4

-- The three statuses that end a dispute.
abbrev pub is_settled : DisputeStatus → Bool
is_settled DisputeStatus.open_dispute = false
is_settled DisputeStatus.under_review = false
is_settled _ = true

abbrev pub message : ℕ → Text → DisputeMessage
message sender_id body = record { sender_id = sender_id; body = body }

abbrev pub new_dispute : ℕ → Text → Dispute
new_dispute user_id body = record {
  status = DisputeStatus.open_dispute;
  messages = message user_id body ∷ [];
  resolution_note = none;
  resolved_by = none;
}

abbrev pub with_dispute : Dispute → Return → Return
with_dispute dispute r = record r { dispute = some dispute }

abbrev pub store_dispute : ℕ → Dispute → Tx (Unit {0})
store_dispute id dispute = modify_db (update_return id (with_dispute dispute))

unfoldable pub open_dispute : Bool → ℕ → ℕ → Text → Tx (Unit {0})
open_dispute account_open id user_id body = do
  raise_if (not account_open) not_found_user
  row ← gets (customer_return id user_id)
  r ← or_raise row not_found_return
  raise_if (not (has_status ReturnStatus.rejected r)) dispute_not_allowed
  raise_if (is_some r.dispute) dispute_exists
  store_dispute id (new_dispute user_id body)

abbrev pub with_message : ℕ → Text → Dispute → Dispute
with_message sender_id body dispute = record dispute {
  messages = dispute.messages ++ message sender_id body ∷ [];
}

unfoldable pub add_message : ℕ → ℕ → Text → Tx (Unit {0})
add_message id sender_id body = do
  row ← gets (customer_return id sender_id)
  r ← or_raise row not_found_return
  dispute ← or_raise r.dispute not_found_dispute
  raise_if (is_settled dispute.status) dispute_resolved
  store_dispute id (with_message sender_id body dispute)

-- What an administrator has seen of the dispute.
pub record DisputeReview : Type 0 where
  pub expected_status : Option DisputeStatus
  pub expected_message_count : Option ℕ

abbrev pub is_other_dispute_status : Option DisputeStatus → Dispute → Bool
is_other_dispute_status none dispute = false
is_other_dispute_status (some status) dispute =
    not (dispute_code status == dispute_code dispute.status)

abbrev pub is_other_count : Option ℕ → Dispute → Bool
is_other_count none dispute = false
is_other_count (some count) dispute = not (count == length dispute.messages)

-- `_check_dispute_review`
unfoldable pub is_other_dispute : DisputeReview → Dispute → Bool
is_other_dispute review dispute =
    is_other_dispute_status review.expected_status dispute
    || is_other_count review.expected_message_count dispute

abbrev pub dispute_of : Option Return → Option Dispute
dispute_of none = none
dispute_of (some r) = r.dispute

abbrev pub find_dispute : ℕ → Db → Option Dispute
find_dispute id db = dispute_of (lookup id db.returns)

-- The first answer of an administrator takes the dispute under review.
abbrev pub reviewed_status : DisputeStatus → DisputeStatus
reviewed_status DisputeStatus.open_dispute = DisputeStatus.under_review
reviewed_status status = status

abbrev pub under_review : Dispute → Dispute
under_review dispute = record dispute { status = reviewed_status dispute.status }

unfoldable pub add_admin_message : ℕ → ℕ → Text → DisputeReview → Tx (Unit {0})
add_admin_message id admin_id body review = do
  row ← gets (find_dispute id)
  dispute ← or_raise row not_found_dispute
  raise_if (is_other_dispute review dispute) dispute_changed
  raise_if (is_blank (strip body)) blank_message
  raise_if (is_settled dispute.status) dispute_resolved
  store_dispute id (with_message admin_id body (under_review dispute))

-- A customer-favour resolution makes the rejected return active again, so its quantities are validated
-- once more, without its own.
abbrev pub reactivate : ℕ → Return → Tx (Unit {0})
reactivate id r = do
  raise_if (not (has_status ReturnStatus.rejected r)) rejected_return_required
  so_row ← gets (λ db. lookup r.seller_order_id db.seller_orders)
  so ← or_raise so_row return_data_missing
  order_row ← gets (λ db. lookup r.order_id db.orders)
  order ← or_raise order_row return_data_missing
  validate_return_quantities r.order_id so.seller_id (some id) r.items
  update_status id ReturnStatus.approved none

unfoldable pub resolve_for_customer : ℕ → Tx (Unit {0})
resolve_for_customer id = do
  row ← gets (λ db. lookup id db.returns)
  r ← or_raise row rejected_return_required
  reactivate id r

abbrev pub resolved : DisputeStatus → Text → ℕ → Dispute → Dispute
resolved status note admin_id dispute = record dispute {
  status = status;
  resolution_note = some note;
  resolved_by = some admin_id;
}

-- `resolve_dispute`; the last flag tells that the resolution is in favour of the customer.
unfoldable pub resolve_dispute : ℕ → ℕ → Text → DisputeReview → Bool → Tx (Unit {0})
resolve_dispute id admin_id note review for_customer = do
  row ← gets (find_dispute id)
  dispute ← or_raise row not_found_dispute
  raise_if (is_other_dispute review dispute) dispute_changed
  raise_if (ltb (length (strip note)) 10) short_note
  raise_if (is_settled dispute.status) dispute_resolved
  if for_customer then resolve_for_customer id else pure tt
  store_dispute id (
      resolved
        (if for_customer then DisputeStatus.resolved_customer else DisputeStatus.resolved_seller)
        note admin_id dispute)
