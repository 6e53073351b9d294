-- ===== src/Outbox.antt =====
-- The notification outbox (services/notification_outbox.py): an event is queued in the transaction of the
-- change that it tells of, once for each event key.
use drip_marketplace.Prelude.{ℕ, Bool, false, ◌&&◌, ◌||◌, List, [], ◌∷◌, ◌==◌, if◌then◌else◌}
use drip_marketplace.Db.{Tx, ok, Event, PayoutStatus, OrderStatus}

abbrev pub payout_code : PayoutStatus → ℕ
payout_code PayoutStatus.requested = 0
payout_code PayoutStatus.approved = 1
payout_code PayoutStatus.processing = 2
payout_code PayoutStatus.completed = 3
payout_code PayoutStatus.rejected = 4

abbrev pub order_code : OrderStatus → ℕ
order_code OrderStatus.pending_payment = 0
order_code OrderStatus.payment_confirmed = 1
order_code OrderStatus.pending_cod_verification = 2
order_code OrderStatus.processing = 3
order_code OrderStatus.shipped = 4
order_code OrderStatus.delivered = 5
order_code OrderStatus.completed = 6
order_code OrderStatus.cancelled = 7
order_code OrderStatus.refunded = 8

-- Equality of event keys.
unfoldable pub same_event : Event → Event → Bool
same_event (Event.order_placed a) (Event.order_placed b) = a == b
same_event (Event.order_status a s) (Event.order_status b t) =
    a == b && order_code s == order_code t
same_event (Event.payout_status a s) (Event.payout_status b t) =
    a == b && payout_code s == payout_code t
same_event _ _ = false

unfoldable pub is_queued : Event → List Event → Bool
is_queued event [] = false
is_queued event (queued ∷ outbox) = same_event queued event || is_queued event outbox

-- INSERT ... ON CONFLICT DO NOTHING
unfoldable pub queued : Event → List Event → List Event
queued event outbox = if is_queued event outbox then outbox else event ∷ outbox

abbrev pub queue_notification : Event → Tx (Unit {0})
queue_notification event db = ok tt (record db { outbox = queued event db.outbox })
