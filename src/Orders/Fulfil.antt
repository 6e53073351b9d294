-- ===== src/Orders/Fulfil.antt =====
-- A seller moves its part of an order from pending to delivered (`update_seller_order_status`).
pub mod Moved
use drip_marketplace.Prelude.{
  ℕ, Bool, true, false, not, ◌&&◌, ◌||◌, Option, none, some, List, [], ◌∷◌, ◌==◌, if◌then◌else◌,
}
use drip_marketplace.Db.{
  Tx, ok, pure, raise, raise_if, gets, modify_db, or_raise, ◌>>=◌, ◌>>◌, Db, Order, OrderItem,
  OrderStatus, SellerOrder, SellerOrderStatus, StatusChange, Event, lookup, not_found_seller_order,
  not_found_order, bad_transition, not_payable_for_fulfilment,
}
use drip_marketplace.Inventory.{deduct}
use drip_marketplace.Outbox.{queue_notification}
use drip_marketplace.Commission.Settle.{is_collected, settle}
use drip_marketplace.Orders.{
  SellerOrderRow, update_seller_order, update_order, seller_orders_of, is_shipped,
  is_delivered_status,
}

abbrev pub seller_order_code : SellerOrderStatus → ℕ
seller_order_code SellerOrderStatus.pending = 0
seller_order_code SellerOrderStatus.processing = 1
seller_order_code SellerOrderStatus.shipped = 2
seller_order_code SellerOrderStatus.delivered = 3
seller_order_code SellerOrderStatus.cancelled = 4
seller_order_code SellerOrderStatus.returned = 5

-- The seller order, if it is the seller's.
abbrev pub owned_seller_order : ℕ → Option SellerOrder → Option SellerOrder
owned_seller_order seller_id none = none
owned_seller_order seller_id (some so) = if so.seller_id == seller_id then some so else none

-- `transitions.get(so.status)`
abbrev pub next_status : SellerOrderStatus → Option SellerOrderStatus
next_status SellerOrderStatus.pending = some SellerOrderStatus.processing
next_status SellerOrderStatus.processing = some SellerOrderStatus.shipped
next_status SellerOrderStatus.shipped = some SellerOrderStatus.delivered
next_status _ = none

abbrev pub leads_to : Option SellerOrderStatus → SellerOrderStatus → Bool
leads_to none target = false
leads_to (some status) target = seller_order_code status == seller_order_code target

abbrev pub is_fulfillable : OrderStatus → Bool
is_fulfillable OrderStatus.payment_confirmed = true
is_fulfillable OrderStatus.processing = true
is_fulfillable OrderStatus.shipped = true
is_fulfillable _ = false

-- The loop over the order's items: those of the seller leave the stock.
unfoldable pub deduct_items : ℕ → List OrderItem → Tx (Unit {0})
deduct_items seller_id [] = pure tt
deduct_items seller_id (item ∷ items) = do
  if item.seller_id == seller_id then deduct item.variant_id item.quantity else pure tt
  deduct_items seller_id items

unfoldable pub all_states : (SellerOrderStatus → Bool) → List SellerOrderRow → Bool
all_states p [] = true
all_states p (row ∷ rows) = p row.1.status && all_states p rows

-- `parent_status`, from the statuses of all seller orders.
unfoldable pub parent_status : List SellerOrderRow → OrderStatus
parent_status rows =
    if all_states is_delivered_status rows
    then OrderStatus.delivered
    else if all_states (λ status. is_shipped status || is_delivered_status status) rows
    then OrderStatus.shipped
    else OrderStatus.processing

abbrev pub log_seller_order : ℕ → SellerOrderStatus → SellerOrderStatus → Db → Db
log_seller_order id old new db = record db {
  history = StatusChange.seller_order_change id old new ∷ db.history;
}

-- The parent's status and its notification.
abbrev pub update_parent : ℕ → Tx (Unit {0})
update_parent order_id = do
  status ← gets (λ db. parent_status (seller_orders_of order_id db))
  modify_db (update_order order_id status)
  queue_notification (Event.order_status order_id status)

-- Settlement is part of the delivery of a paid order.
abbrev pub settle_paid : ℕ → ℕ → ℕ → Tx (Unit {0})
settle_paid now id order_id db =
    if is_collected (lookup order_id db.payments) then settle now id db else ok tt db

abbrev pub ship_items : ℕ → SellerOrderStatus → Order → Tx (Unit {0})
ship_items seller_id target order =
    if is_shipped target then deduct_items seller_id order.items else pure tt

abbrev pub settle_delivered : ℕ → ℕ → SellerOrderStatus → SellerOrder → Tx (Unit {0})
settle_delivered now id target so =
    if is_delivered_status target then settle_paid now id so.order_id else pure tt

-- The part after the guards.
unfoldable pub move_seller_order :
    ℕ → ℕ → ℕ → SellerOrderStatus → SellerOrder → Order → Tx (Unit {0})
move_seller_order now seller_id id target so order = do
  ship_items seller_id target order
  modify_db (update_seller_order now id target)
  modify_db (log_seller_order id so.status target)
  update_parent so.order_id
  settle_delivered now id target so

abbrev pub advance : ℕ → ℕ → ℕ → SellerOrderStatus → SellerOrder → Order → Tx (Unit {0})
advance now seller_id id target so order = do
  raise_if (not (leads_to (next_status so.status) target)) bad_transition
  raise_if (not (is_fulfillable order.status)) not_payable_for_fulfilment
  move_seller_order now seller_id id target so order

abbrev pub unless_same : SellerOrderStatus → SellerOrder → Tx (Unit {0}) → Tx (Unit {0})
unless_same target so go =
    if seller_order_code so.status == seller_order_code target then pure tt else go

unfoldable pub update_seller_order_status : ℕ → ℕ → ℕ → SellerOrderStatus → Tx (Unit {0})
update_seller_order_status now seller_id id target = do
  row ← gets (λ db. owned_seller_order seller_id (lookup id db.seller_orders))
  so ← or_raise row not_found_seller_order
  parent ← gets (λ db. lookup so.order_id db.orders)
  order ← or_raise parent not_found_order
  unless_same target so (advance now seller_id id target so order)
