-- ===== src/Orders/Expiry.antt =====
-- The workers that cancel orders whose deadline has passed (tasks/order_tasks.py).
use drip_marketplace.Prelude.{
  sort_by, ℕ, ◌+◌, ◌-◌, Bool, true, false, not, ◌&&◌, ◌||◌, none, some, List, [], ◌∷◌, select, ltb,
  leb, if◌then◌else◌,
}
use drip_marketplace.Db.{
  Tx, ok, pure, ◌>>◌, Db, Order, OrderItem, OrderStatus, PaymentMethod, Settings, lookup,
}
use drip_marketplace.Orders.{close_order}

abbrev pub is_cod : PaymentMethod → Bool
is_cod PaymentMethod.cod = true
is_cod _ = false

abbrev pub is_pending_cod : OrderStatus → Bool
is_pending_cod OrderStatus.pending_cod_verification = true
is_pending_cod _ = false

abbrev pub is_pending_payment : OrderStatus → Bool
is_pending_payment OrderStatus.pending_payment = true
is_pending_payment _ = false

abbrev pub by_variant : OrderItem → OrderItem → Bool
by_variant a b = leb a.variant_id b.variant_id

-- `sorted(order.items, key=lambda row: row.variant_id)`
unfoldable pub sorted_items : List OrderItem → List OrderItem
sorted_items items = sort_by by_variant items

abbrev pub time_out : ℕ → ℕ → Order → Tx (Unit {0})
time_out now order_id order db =
    if not (is_pending_cod order.status && is_cod order.payment_method)
    then ok tt db
    else if ltb now (order.created_at + db.settings.cod_timeout)
    then ok tt db
    else close_order now true order_id (sorted_items order.items) db

-- An error is rolled back and raised again for the queue.
unfoldable pub cod_verification_timeout : ℕ → ℕ → Tx (Unit {0})
cod_verification_timeout now order_id db = elim (lookup order_id db.orders) [
  | none ↦ ok tt db
  | some order ↦ time_out now order_id order db
]

-- The WHERE clause of the sweep.
abbrev pub is_expired : ℕ → Settings → Order → Bool
is_expired now policy order =
    is_pending_cod order.status
      && (is_cod order.payment_method && ltb (order.created_at + policy.cod_timeout) now)
    || (is_pending_payment order.status && ltb (order.created_at + policy.payment_timeout) now)

abbrev pub OrderRow : Type 0
OrderRow = ℕ × Order

-- LIMIT
unfoldable pub take_rows : ℕ → List OrderRow → List OrderRow
take_rows n [] = []
take_rows n (row ∷ rows) = if ltb 0 n then row ∷ take_rows (n - 1) rows else []

-- The rows of the sweep, in the order of creation as the table lists them; `locked` tells which rows
-- another transaction holds (`skip_locked`).
unfoldable pub expired : ℕ → (ℕ → Bool) → Db → List OrderRow
expired now locked db =
    take_rows 100 (select (λ row. is_expired now db.settings row.1 && not (locked row.0)) db.orders)

unfoldable pub close_all : ℕ → List OrderRow → Tx (Unit {0})
close_all now [] = pure tt
close_all now (row ∷ rows) = do
  close_order now true row.0 (sorted_items row.1.items)
  close_all now rows

unfoldable pub expire_pending_orders : ℕ → (ℕ → Bool) → Tx (Unit {0})
expire_pending_orders now locked db = close_all now (expired now locked db) db
