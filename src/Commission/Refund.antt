-- ===== src/Commission/Refund.antt =====
-- `_create_refund_accounting` and `reverse_for_refund`: what a confirmed refund is made of, and its
-- charge to the sellers.
pub mod Allocated
pub mod Frame
pub mod Reversed
pub mod Repeated
use drip_marketplace.Prelude.{
  ℕ, ◌+◌, ◌-◌, Bool, not, ◌&&◌, Option, none, some, List, [], ◌∷◌, map, min, sum_of, select, ltb,
  ◌==◌, is_some, if◌then◌else◌,
}
use drip_marketplace.Db.{
  Tx, ok, pure, raise, raise_if, gets, modify_db, or_raise, ◌>>=◌, ◌>>◌, Db, Order, SellerOrder,
  Refund, RefundAccounting, RefundAllocation, lookup, insert, not_found_seller_order,
  refund_target_required, no_seller_allocation, historical_refunds, return_exceeds_merchandise,
  exceeds_merchandise_and_shipping,
}
use drip_marketplace.Commission.Split.{Part, part_amount, split_allocation}
use drip_marketplace.Commission.Settle.{
  AllocationRow, apply_all, of_refund, refresh_refund_accounting,
}
use drip_marketplace.Commission.Release.{any_row}

-- What a refund is for: a seller order (a return) or a whole order.
pub data Target : Type 0 where
  for_seller_order for_order : ℕ → Target
  unspecified : Target

abbrev pub SellerOrderRow : Type 0
SellerOrderRow = ℕ × SellerOrder

abbrev pub resolve_seller_order : ℕ → Tx (ℕ × List SellerOrderRow)
resolve_seller_order id = do
  row ← gets (λ db. lookup id db.seller_orders)
  so ← or_raise row not_found_seller_order
  pure (so.order_id, (id, so) ∷ [])

-- `resolved_order_id` and `seller_orders`
unfoldable pub resolve : Target → Tx (ℕ × List SellerOrderRow)
resolve (Target.for_seller_order id) = resolve_seller_order id
resolve (Target.for_order order_id) =
    gets (λ db. (order_id, select (λ row. row.1.order_id == order_id) db.seller_orders))
resolve Target.unspecified = raise refund_target_required

abbrev pub is_empty {ℓ} : {A : Type ℓ} → List A → Bool
is_empty [] = Bool.true
is_empty (_ ∷ _) = Bool.false

-- `unallocated_historical is not None`: another processed refund of the order has no accounting row.
unfoldable pub has_unallocated : ℕ → ℕ → Db → Bool
has_unallocated refund_id order_id db =
    any_row
      (λ id r.
        r.order_id == order_id
        && (not (id == refund_id)
            && (is_some r.processed_at && not (is_some (lookup id db.accountings)))))
      db.refunds

-- The merchandise that earlier refunds took from a seller order.
unfoldable pub prior_merchandise : ℕ → Db → ℕ
prior_merchandise so db =
    sum_of (λ (row : AllocationRow). row.1.merchandise_amount)
      (select (λ row. row.1.seller_order_id == so) db.allocations)

-- `max(subtotal - prior, 0)`
abbrev pub capacity : Db → SellerOrderRow → Part
capacity db row = (row.0, row.1.subtotal - prior_merchandise row.0 db)

unfoldable pub capacities : List SellerOrderRow → Db → List Part
capacities rows db = map (capacity db) rows

abbrev pub shipping_of : Option RefundAccounting → ℕ
shipping_of none = 0
shipping_of (some a) = a.shipping_amount

-- The shipping that earlier refunds of the order took.
unfoldable pub prior_shipping : ℕ → Db → ℕ
prior_shipping order_id db =
    sum_of (λ (row : ℕ × Refund). shipping_of (lookup row.0 db.accountings))
      (select (λ row. row.1.order_id == order_id) db.refunds)

-- `merchandise_amount`, `shipping_amount` and `split`
pub record Plan : Type 0 where
  pub merchandise : ℕ
  pub shipping : ℕ
  pub shares : List Part

abbrev pub whole_to : Part → ℕ → Tx Plan
whole_to cap amount = do
  raise_if (ltb cap.1 amount) return_exceeds_merchandise
  pure (record { merchandise = amount; shipping = 0; shares = (cap.0, amount) ∷ [] })

-- A return: all of it is merchandise of the one seller order.
unfoldable pub plan_return : ℕ → List Part → Tx Plan
plan_return amount [] = raise no_seller_allocation
plan_return amount (cap ∷ _) = whole_to cap amount

-- A direct refund: merchandise first, the rest is shipping.
unfoldable pub plan_order : ℕ → ℕ → Order → List Part → Tx Plan
plan_order amount order_id order caps = do
  let merchandise = min amount (sum_of part_amount caps)
  earlier ← gets (prior_shipping order_id)
  raise_if (ltb (order.shipping_fee - earlier) (amount - merchandise))
      exceeds_merchandise_and_shipping
  shares ← split_allocation merchandise caps
  pure (record { merchandise = merchandise; shipping = amount - merchandise; shares = shares })

unfoldable pub plan : Target → ℕ → ℕ → Order → List Part → Tx Plan
plan (Target.for_seller_order _) amount order_id order caps = plan_return amount caps
plan _ amount order_id order caps = plan_order amount order_id order caps

abbrev pub new_accounting : Plan → RefundAccounting
new_accounting p = record {
  merchandise_amount = p.merchandise;
  shipping_amount = p.shipping;
  commission_reversal_amount = 0;
  seller_reversal_amount = 0;
  recovered_amount = 0;
  settlement_offset_amount = 0;
  platform_shortfall_amount = 0;
  platform_funded_amount = p.shipping;
  reconciled_at = none;
}

abbrev pub new_allocation : ℕ → ℕ → ℕ → ℕ → RefundAllocation
new_allocation refund_id so seller_id amount = record {
  refund_id = refund_id;
  seller_order_id = so;
  seller_id = seller_id;
  merchandise_amount = amount;
  commission_rate = none;
  commission_reversal_amount = 0;
  seller_reversal_amount = 0;
  recovered_amount = 0;
  settlement_offset_amount = 0;
  platform_shortfall_amount = 0;
  applied_at = none;
}

abbrev pub seller_of : Option SellerOrder → ℕ
seller_of none = 0
seller_of (some so) = so.seller_id

-- The INSERTs of the loop over `split`; a share of 0 is passed over. The seller order of a share is
-- one that was read before, so it is there.
abbrev pub add_allocation : ℕ → Part → Db → Db
add_allocation refund_id share db = record db {
  allocations =
      insert db.next_id
        (new_allocation refund_id share.0 (seller_of (lookup share.0 db.seller_orders)) share.1)
        db.allocations;
  next_id = db.next_id + 1;
}

unfoldable pub add_allocations : ℕ → List Part → Db → Db
add_allocations refund_id [] db = db
add_allocations refund_id (share ∷ shares) db =
    add_allocations refund_id shares
      (if ltb 0 share.1 then add_allocation refund_id share db else db)

abbrev pub store_plan : ℕ → Plan → Db → Db
store_plan refund_id p db =
    add_allocations refund_id p.shares
      (record db { accountings = insert refund_id (new_accounting p) db.accountings })

unfoldable pub create_refund_accounting : ℕ → Target → ℕ → Tx (Unit {0})
create_refund_accounting refund_id target amount = do
  resolved ← resolve target
  row ← gets (λ db. lookup resolved.0 db.orders)
  order ← or_raise row no_seller_allocation
  raise_if (is_empty resolved.1) no_seller_allocation
  historical ← gets (has_unallocated refund_id resolved.0)
  raise_if historical historical_refunds
  caps ← gets (capacities resolved.1)
  p ← plan target amount resolved.0 order caps
  modify_db (store_plan refund_id p)

abbrev pub pending_of_refund : ℕ → Db → List AllocationRow
pending_of_refund refund_id db =
    select (λ row. row.1.refund_id == refund_id && not (is_some row.1.applied_at)) db.allocations

unfoldable pub ensure_accounting : ℕ → Target → ℕ → Tx (Unit {0})
ensure_accounting refund_id target amount db =
    if is_some (lookup refund_id db.accountings)
    then ok tt db
    else create_refund_accounting refund_id target amount db

-- The amount is in whole paisa already, so `_money` leaves it as it is.
unfoldable pub reverse_for_refund : ℕ → ℕ → Target → ℕ → Tx (Unit {0})
reverse_for_refund now refund_id target amount = do
  ensure_accounting refund_id target amount
  rows ← gets (pending_of_refund refund_id)
  apply_all now Bool.false rows
  refresh_refund_accounting now refund_id
