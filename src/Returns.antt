-- ===== src/Returns.antt =====
-- Returns (services/return_service.py, repositories/return_repo.py): the decisions on a return by its seller
-- and by administrators.
pub mod Request
pub mod Claims
pub mod Steps
pub mod Decided
pub mod Requested
pub mod Disputed
pub mod Refunded
pub mod PaidBack
pub mod History
pub mod Disputes
pub mod Refund
use drip_marketplace.Prelude.{
  ℕ, Bool, true, false, not, ◌&&◌, ◌||◌, Option, none, some, List, [], ◌∷◌, ◌==◌, if◌then◌else◌,
}
use drip_marketplace.Db.{
  Tx, pure, raise_if, gets, modify_db, or_raise, ◌>>=◌, ◌>>◌, Db, Text, Return, ReturnStatus,
  SellerOrder, lookup, modify, not_found_return, return_wrong_status, return_changed,
}
use drip_marketplace.Orders.{is_owner}
use drip_marketplace.Texts.{is_blank, same_optional}

abbrev pub ReturnRow : Type 0
ReturnRow = ℕ × Return

abbrev pub return_code : ReturnStatus → ℕ
return_code ReturnStatus.requested = 0
return_code ReturnStatus.approved = 1
return_code ReturnStatus.rejected = 2
return_code ReturnStatus.received = 3
return_code ReturnStatus.refunded = 4

abbrev pub has_status : ReturnStatus → Return → Bool
has_status status r = return_code r.status == return_code status

-- `get_by_id` with a user.
abbrev pub of_customer : ℕ → Option Return → Option Return
of_customer user_id none = none
of_customer user_id (some r) = if is_owner r.user_id (some user_id) then some r else none

abbrev pub customer_return : ℕ → ℕ → Db → Option Return
customer_return id user_id db = of_customer user_id (lookup id db.returns)

abbrev pub if_sold_by : ℕ → Return → Option SellerOrder → Option Return
if_sold_by seller_id r none = none
if_sold_by seller_id r (some so) = if so.seller_id == seller_id then some r else none

abbrev pub of_seller : ℕ → Db → Option Return → Option Return
of_seller seller_id db none = none
of_seller seller_id db (some r) = if_sold_by seller_id r (lookup r.seller_order_id db.seller_orders)

-- `get_by_seller`
unfoldable pub seller_return : ℕ → ℕ → Db → Option Return
seller_return id seller_id db = of_seller seller_id db (lookup id db.returns)

-- An empty note leaves the notes as they are.
abbrev pub noted : Option Text → Option Text → Option Text
noted none old = old
noted (some note) old = if is_blank note then old else some note

abbrev pub with_status : ReturnStatus → Option Text → Return → Return
with_status status note r = record r { status = status; notes = noted note r.notes }

abbrev pub update_return : ℕ → (Return → Return) → Db → Db
update_return id f db = record db { returns = modify id f db.returns }

-- `update_status`
abbrev pub update_status : ℕ → ReturnStatus → Option Text → Tx (Unit {0})
update_status id status note = modify_db (update_return id (with_status status note))

-- A decision's guard on the status, and its update.
abbrev pub move_return : ReturnStatus → ReturnStatus → ℕ → Option Text → Return → Tx (Unit {0})
move_return from target id note r = do
  raise_if (not (has_status from r)) return_wrong_status
  update_status id target note

abbrev pub by_seller : ReturnStatus → ReturnStatus → ℕ → ℕ → Option Text → Tx (Unit {0})
by_seller from target id seller_id note = do
  row ← gets (seller_return id seller_id)
  r ← or_raise row not_found_return
  move_return from target id note r

unfoldable pub seller_approve_return : ℕ → ℕ → Option Text → Tx (Unit {0})
seller_approve_return id seller_id note =
    by_seller ReturnStatus.requested ReturnStatus.approved id seller_id note

unfoldable pub seller_reject_return : ℕ → ℕ → Option Text → Tx (Unit {0})
seller_reject_return id seller_id note =
    by_seller ReturnStatus.requested ReturnStatus.rejected id seller_id note

unfoldable pub seller_mark_received : ℕ → ℕ → Option Text → Tx (Unit {0})
seller_mark_received id seller_id note =
    by_seller ReturnStatus.approved ReturnStatus.received id seller_id note

-- What an administrator has seen; `expected_notes` is none when the request does not say.
pub record ReturnReview : Type 0 where
  pub admin_note : Option Text
  pub expected_status : Option ReturnStatus
  pub expected_notes : Option (Option Text)
  pub expected_refund_amount : Option ℕ

abbrev pub is_other_status : Option ReturnStatus → Return → Bool
is_other_status none r = false
is_other_status (some status) r = not (has_status status r)

abbrev pub are_other_notes : Option (Option Text) → Return → Bool
are_other_notes none r = false
are_other_notes (some notes) r = not (same_optional notes r.notes)

-- `_check_return_review`
unfoldable pub is_other_return : ReturnReview → Return → Bool
is_other_return review r =
    is_other_status review.expected_status r || are_other_notes review.expected_notes r

abbrev pub by_admin : ReturnStatus → ReturnStatus → ℕ → ReturnReview → Tx (Unit {0})
by_admin from target id review = do
  row ← gets (λ db. lookup id db.returns)
  r ← or_raise row not_found_return
  raise_if (is_other_return review r) return_changed
  move_return from target id review.admin_note r

unfoldable pub approve_return : ℕ → ReturnReview → Tx (Unit {0})
approve_return id review = by_admin ReturnStatus.requested ReturnStatus.approved id review

unfoldable pub reject_return : ℕ → ReturnReview → Tx (Unit {0})
reject_return id review = by_admin ReturnStatus.requested ReturnStatus.rejected id review

unfoldable pub mark_received : ℕ → ReturnReview → Tx (Unit {0})
mark_received id review = by_admin ReturnStatus.approved ReturnStatus.received id review
