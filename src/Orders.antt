-- ===== src/Orders.antt =====
-- Orders: status updates with their history, cancellation and expiry (services/order_service.py,
-- services/order_access.py, tasks/order_tasks.py, repositories/order_repo.py).
pub mod Place
pub mod Replay
pub mod Fulfil
pub mod Expiry
pub mod Closed
pub mod Cancelled
use drip_marketplace.Prelude.{
  ℕ, ◌+◌, Bool, true, false, not, ◌&&◌, ◌||◌, Option, none, some, List, [], ◌∷◌, select, ltb, ◌==◌,
  is_some, if◌then◌else◌,
}
use drip_marketplace.Db.{
  Tx, ok, pure, raise, raise_if, gets, modify_db, or_raise, ◌>>=◌, ◌>>◌, Db, Order, OrderItem,
  OrderStatus, SellerOrder, SellerOrderStatus, PaymentMethod, Payment, PaymentStatus, StatusChange,
  Event, lookup, modify, sign_in_required, not_found_order, cannot_cancel_status,
  already_dispatched, already_paid,
}
use drip_marketplace.Inventory.{release}
use drip_marketplace.Outbox.{queue_notification}

abbrev pub SellerOrderRow : Type 0
SellerOrderRow = ℕ × SellerOrder

abbrev pub stamp_if : Bool → ℕ → Option ℕ → Option ℕ
stamp_if hit now old = if hit then some now else old

abbrev pub is_shipped : SellerOrderStatus → Bool
is_shipped SellerOrderStatus.shipped = true
is_shipped _ = false

abbrev pub is_delivered_status : SellerOrderStatus → Bool
is_delivered_status SellerOrderStatus.delivered = true
is_delivered_status _ = false

-- `SellerOrderRepository.update_status`
abbrev pub moved_to : ℕ → SellerOrderStatus → SellerOrder → SellerOrder
moved_to now status so = record so {
  status = status;
  shipped_at = stamp_if (is_shipped status) now so.shipped_at;
  delivered_at = stamp_if (is_delivered_status status) now so.delivered_at;
}

abbrev pub update_seller_order : ℕ → ℕ → SellerOrderStatus → Db → Db
update_seller_order now id status db = record db {
  seller_orders = modify id (moved_to now status) db.seller_orders;
}

abbrev pub order_status_of : Option Order → Option OrderStatus
order_status_of none = none
order_status_of (some order) = some order.status

-- `OrderRepository.update_status`, with its entry in the history.
abbrev pub update_order : ℕ → OrderStatus → Db → Db
update_order id status db = record db {
  orders = modify id (λ order. record order { status = status }) db.orders;
  history =
      StatusChange.order_change id (order_status_of (lookup id db.orders)) status ∷ db.history;
}

-- `order.seller_orders`
abbrev pub seller_orders_of : ℕ → Db → List SellerOrderRow
seller_orders_of order_id db = select (λ row. row.1.order_id == order_id) db.seller_orders

unfoldable pub release_items : Bool → List OrderItem → Tx (Unit {0})
release_items strict [] = pure tt
release_items strict (item ∷ items) = do
  release strict item.variant_id item.quantity
  release_items strict items

unfoldable pub cancel_all : ℕ → List SellerOrderRow → Db → Db
cancel_all now [] db = db
cancel_all now (row ∷ rows) db =
    cancel_all now rows (update_seller_order now row.0 SellerOrderStatus.cancelled db)

-- The part that the three ways to cancel an order share: the reservations, the seller orders, the order,
-- and the notification.
unfoldable pub close_order : ℕ → Bool → ℕ → List OrderItem → Tx (Unit {0})
close_order now strict order_id items = do
  release_items strict items
  modify_db (λ db. cancel_all now (seller_orders_of order_id db) db)
  modify_db (update_order order_id OrderStatus.cancelled)
  queue_notification (Event.order_status order_id OrderStatus.cancelled)

-- `authorized_order`: the order for its account, or for its guest. Whether the token's signature and
-- claims fit the order is the token library's answer, `matches`.
abbrev pub is_owner : Option ℕ → Option ℕ → Bool
is_owner (some owner) (some user) = owner == user
is_owner _ _ = false

abbrev pub is_allowed : Option ℕ → Bool → Order → Bool
is_allowed user_id matches order =
    is_owner order.user_id user_id || (not (is_some order.user_id) && matches)

abbrev pub allowed_order : Option ℕ → Bool → Option Order → Option Order
allowed_order user_id matches none = none
allowed_order user_id matches (some order) =
    if is_allowed user_id matches order then some order else none

abbrev pub token_matches : Option Bool → Bool
token_matches none = false
token_matches (some matches) = matches

unfoldable pub authorized_order : ℕ → Option ℕ → Option Bool → Tx Order
authorized_order order_id user_id guest_token = do
  raise_if (not (is_some user_id) && not (is_some guest_token)) sign_in_required
  row ← gets (λ db. allowed_order user_id (token_matches guest_token) (lookup order_id db.orders))
  or_raise row not_found_order

abbrev pub is_cancellable : OrderStatus → Bool
is_cancellable OrderStatus.pending_payment = true
is_cancellable OrderStatus.pending_cod_verification = true
is_cancellable OrderStatus.processing = true
is_cancellable _ = false

abbrev pub is_undispatched : SellerOrderStatus → Bool
is_undispatched SellerOrderStatus.pending = true
is_undispatched SellerOrderStatus.processing = true
is_undispatched _ = false

unfoldable pub any_dispatched : List SellerOrderRow → Bool
any_dispatched [] = false
any_dispatched (row ∷ rows) = not (is_undispatched row.1.status) || any_dispatched rows

-- A payment that is completed or refunded.
abbrev pub was_paid : Option Payment → Bool
was_paid none = false
was_paid (some payment) = elim payment.status [
  | PaymentStatus.completed ↦ true
  | PaymentStatus.refunded ↦ true
  | _ ↦ false
]

unfoldable pub cancel_order : ℕ → ℕ → Option ℕ → Option Bool → Tx (Unit {0})
cancel_order now order_id user_id guest_token = do
  order ← authorized_order order_id user_id guest_token
  raise_if (not (is_cancellable order.status)) cannot_cancel_status
  dispatched ← gets (λ db. any_dispatched (seller_orders_of order_id db))
  raise_if dispatched already_dispatched
  paid ← gets (λ db. was_paid (lookup order_id db.payments))
  raise_if paid already_paid
  close_order now false order_id order.items
