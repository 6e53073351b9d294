-- ===== src/Payments/Confirm.antt =====
-- The confirmation of a refund (`confirm_refund` and `_refund_confirmation_blockers` of
-- services/payment_service.py): a transfer that was made by hand is recorded, the returned units go back to
-- the stock, and the sellers are charged.
pub mod Restocked
pub mod Recorded
pub mod Confirmed
use drip_marketplace.Prelude.{
  ℕ, ◌+◌, Bool, true, false, not, ◌&&◌, ◌||◌, Option, none, some, List, [], ◌∷◌, sum_of, sort_by,
  ltb, leb, ◌==◌, is_some, if◌then◌else◌,
}
use drip_marketplace.Db.{
  Tx, ok, pure, raise, raise_if, gets, modify_db, or_raise, ◌>>=◌, ◌>>◌, Db, Text, Payment,
  PaymentStatus, Refund, Return, ReturnItem, ReturnStatus, OrderItem, SellerOrder, ProductInventory,
  ItemId, is_completed, lookup, modify, total, bad_transfer_reference, not_found_refund,
  not_found_payment, refund_confirmed_differently, refund_changed, refund_blocked,
  bad_return_quantities, return_inventory_missing,
}
use drip_marketplace.Texts.{strip, same_text, same_optional}
use drip_marketplace.Checkout.{Entry, merge_items}
use drip_marketplace.Commission.Refund.{Target, reverse_for_refund}
use drip_marketplace.Returns.{ReturnRow, has_status}
use drip_marketplace.Returns.Request.{same_item, find_item, quantity_for}
use drip_marketplace.Payments.{RefundRow, pkr, is_other, total_refunded}
use drip_marketplace.Payments.Collection.{is_bad_collection, is_none_left}

-- What an administrator has seen; `expected_return` is none when the link is not checked.
pub record ConfirmReview : Type 0 where
  pub expected_amount : Option ℕ
  pub expected_payment : Option ℕ
  pub expected_return : Option (Option ℕ)

abbrev pub is_same_return : Option ℕ → Option ℕ → Bool
is_same_return none none = true
is_same_return (some a) (some b) = a == b
is_same_return _ _ = false

abbrev pub is_other_link : Option (Option ℕ) → Option ℕ → Bool
is_other_link none link = false
is_other_link (some expected) link = not (is_same_return expected link)

abbrev pub is_other_refund : ConfirmReview → Refund → Bool
is_other_refund review r =
    is_other review.expected_amount r.amount
    || (is_other review.expected_payment r.order_id
        || is_other_link review.expected_return r.return_id)

abbrev pub linked_return : Option ℕ → Db → Option Return
linked_return none db = none
linked_return (some id) db = lookup id db.returns

abbrev pub is_bad_return : ℕ → Option Return → Bool
is_bad_return payment_id none = true
is_bad_return payment_id (some r) =
    not (r.order_id == payment_id)
    || (not (has_status ReturnStatus.received r) || is_none_left r.items)

-- Whether `_refund_confirmation_blockers` finds anything.
unfoldable pub is_refund_blocked : Refund → Payment → Option Return → ℕ → Bool
is_refund_blocked r payment returned reserved =
    (is_some r.processed_at || (is_some r.gateway_ref || is_some r.processed_by))
    || (not (is_completed payment.status && same_text payment.currency pkr)
        || ((not (ltb 0 r.amount) || ltb payment.amount reserved)
            || (is_some r.return_id && is_bad_return r.order_id returned)))

-- `quantities[item_id] += quantity`
unfoldable pub add_returned : ReturnItem → List ReturnItem → List ReturnItem
add_returned i [] = i ∷ []
add_returned i (j ∷ items) =
    if same_item j.item i.item
    then record j { quantity = j.quantity + i.quantity } ∷ items
    else j ∷ add_returned i items

-- `quantities`, unless a quantity is not positive.
unfoldable pub gather : List ReturnItem → List ReturnItem → Option (List ReturnItem)
gather [] acc = some acc
gather (i ∷ items) acc = if i.quantity == 0 then none else gather items (add_returned i acc)

abbrev pub refunded_part : ItemId → Return → ℕ
refunded_part id r = if has_status ReturnStatus.refunded r then quantity_for id r.items else 0

-- `prior`: what other refunded returns took back.
unfoldable pub prior_refunded : ItemId → ℕ → List ReturnRow → ℕ
prior_refunded id return_id [] = 0
prior_refunded id return_id (row ∷ rows) =
    (if row.0 == return_id then 0 else refunded_part id row.1) + prior_refunded id return_id rows

-- The variant of a returned item, when its links and quantities are in order.
abbrev pub checked_item : ℕ → ℕ → ReturnItem → ℕ → OrderItem → Option ℕ
checked_item payment_id seller_id i prior item =
    if i.item.0 == payment_id
      && (item.seller_id == seller_id && leb (prior + i.quantity) item.quantity)
    then some item.variant_id
    else none

abbrev pub variant_of : ℕ → ℕ → ReturnItem → ℕ → Option OrderItem → Option ℕ
variant_of payment_id seller_id i prior none = none
variant_of payment_id seller_id i prior (some item) = checked_item payment_id seller_id i prior item

abbrev pub restock_entry : ReturnItem → Option ℕ → Option (List Entry) → Option (List Entry)
restock_entry i none rest = none
restock_entry i (some variant_id) none = none
restock_entry i (some variant_id) (some rest) = some ((variant_id, i.quantity) ∷ rest)

-- One entry for each item; those of one variant are put together afterwards.
unfoldable pub restock_entries : ℕ → ℕ → ℕ → List ReturnItem → Db → Option (List Entry)
restock_entries payment_id seller_id return_id [] db = some []
restock_entries payment_id seller_id return_id (i ∷ items) db =
    restock_entry i
      (variant_of payment_id seller_id i (prior_refunded i.item return_id db.returns)
        (find_item i.item db))
      (restock_entries payment_id seller_id return_id items db)

abbrev pub split_seller : ℕ → Option SellerOrder → Option ℕ
split_seller payment_id none = none
split_seller payment_id (some so) = if so.order_id == payment_id then some so.seller_id else none

abbrev pub more_stock : ℕ → ProductInventory → ProductInventory
more_stock quantity row = record row { stock = row.stock + quantity }

abbrev pub add_stock : ℕ → ℕ → Db → Db
add_stock variant_id quantity db = record db {
  inventory = modify variant_id (more_stock quantity) db.inventory;
}

-- One UPDATE for each variant, which must find its row.
unfoldable pub restock_all : List Entry → Tx (Unit {0})
restock_all [] = pure tt
restock_all (entry ∷ entries) = do
  row ← gets (λ db. lookup entry.0 db.inventory)
  raise_if (not (is_some row)) return_inventory_missing
  modify_db (add_stock entry.0 entry.1)
  restock_all entries

abbrev pub by_variant : Entry → Entry → Bool
by_variant a b = leb a.0 b.0

abbrev pub paid_back : ℕ → Return → Return
paid_back now r = record r { status = ReturnStatus.refunded; resolved_at = some now }

-- Step 1 of the confirmation, for a refund of a return.
unfoldable pub restock_return : ℕ → ℕ → ℕ → Return → Tx (Unit {0})
restock_return now payment_id return_id r = do
  split ← gets (λ db. split_seller payment_id (lookup r.seller_order_id db.seller_orders))
  items ← or_raise (gather r.items []) bad_return_quantities
  seller_id ← or_raise split bad_return_quantities
  found ← gets (restock_entries payment_id seller_id return_id items)
  entries ← or_raise found bad_return_quantities
  restock_all (sort_by by_variant (merge_items entries))
  modify_db (λ db. record db { returns = modify return_id (paid_back now) db.returns })

abbrev pub take_back : ℕ → ℕ → Option ℕ → Option Return → Tx (Unit {0})
take_back now payment_id (some return_id) (some r) = restock_return now payment_id return_id r
take_back now payment_id _ _ = pure tt

abbrev pub confirmed : ℕ → ℕ → Text → Refund → Refund
confirmed now admin_id reference r = record r {
  gateway_ref = some reference;
  processed_at = some now;
  processed_by = some admin_id;
}

abbrev pub store_confirmed : ℕ → ℕ → ℕ → Text → Db → Db
store_confirmed now refund_id admin_id reference db = record db {
  refunds = modify refund_id (confirmed now admin_id reference) db.refunds;
}

-- A return is charged to its seller order, a direct refund to the whole order.
abbrev pub target_of : ℕ → Option Return → Target
target_of payment_id none = Target.for_order payment_id
target_of payment_id (some r) = Target.for_seller_order r.seller_order_id

abbrev pub confirmed_part : ℕ → Refund → ℕ
confirmed_part payment_id r =
    if r.order_id == payment_id && is_some r.processed_at then r.amount else 0

-- What has been paid back of a payment.
abbrev pub total_confirmed : ℕ → Db → ℕ
total_confirmed payment_id db = total (confirmed_part payment_id) db.refunds

abbrev pub refunded_payment : Payment → Payment
refunded_payment payment = record payment { status = PaymentStatus.refunded }

abbrev pub store_refunded : ℕ → Db → Db
store_refunded payment_id db = record db {
  payments = modify payment_id refunded_payment db.payments;
}

-- Step 4: the payment is refunded when all of it has been confirmed.
unfoldable pub close_payment : ℕ → Payment → Tx (Unit {0})
close_payment payment_id payment = do
  confirmed_total ← gets (total_confirmed payment_id)
  if leb payment.amount confirmed_total then modify_db (store_refunded payment_id) else pure tt

unfoldable pub confirm_now :
    ℕ → ℕ → ℕ → Text → ConfirmReview → Refund → Option Return → Payment → Tx (Unit {0})
confirm_now now refund_id admin_id reference review r returned payment = do
  raise_if (is_other_refund review r) refund_changed
  reserved ← gets (total_refunded r.order_id)
  raise_if (is_refund_blocked r payment returned reserved) refund_blocked
  take_back now r.order_id r.return_id returned
  modify_db (store_confirmed now refund_id admin_id reference)
  reverse_for_refund now refund_id (target_of r.order_id returned) r.amount
  close_payment r.order_id payment

unfoldable pub confirmed_before : Text → Refund → Tx (Unit {0})
confirmed_before reference r =
    raise_if (not (same_optional r.gateway_ref (some reference))) refund_confirmed_differently

-- The reference's schema is that of a cash collection. The second reading of the refund's return, under its
-- lock, finds the same one here.
unfoldable pub confirm_refund : ℕ → ℕ → ℕ → Text → ConfirmReview → Tx (Unit {0})
confirm_refund now refund_id admin_id reference review = do
  raise_if (is_bad_collection reference) bad_transfer_reference
  row ← gets (λ db. lookup refund_id db.refunds)
  r ← or_raise row not_found_refund
  returned ← gets (linked_return r.return_id)
  payment_row ← gets (λ db. lookup r.order_id db.payments)
  payment ← or_raise payment_row not_found_payment
  if is_some r.processed_at
      then confirmed_before (strip reference) r
      else confirm_now now refund_id admin_id (strip reference) review r returned payment
