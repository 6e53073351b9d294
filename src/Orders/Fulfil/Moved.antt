-- ===== src/Orders/Fulfil/Moved.antt =====
-- What a fulfilment step does: the seller order takes the next status, the order's status is that of its
-- seller orders, and a delivery that is paid for is settled.
use drip_marketplace.Prelude.{
  ℕ, ◌≤◌, ◌≡◌, refl, ap, ◌∙◌, ◌⊎◌, inl, inr, true, not, some, List, [], ◌∷◌, arith, ◌==◌, ==→eq,
  Bool-cases, Option-cases,
}
use drip_marketplace.Db.{
  Db, Event, Order, OrderItem, SellerOrder, SellerOrderStatus, CommissionLedger, Ends, Ends-then,
  Ends-guard, Ends-require, Ends-weaken, lookup, lookup-modify_self, ◌>>◌,
}
use drip_marketplace.Commission.Ledger.{rate_scale}
use drip_marketplace.Commission.Ledger.Charged.{Books}
use drip_marketplace.Commission.Settle.{is_collected, settle}
use drip_marketplace.Commission.Settle.Once.{SettleEnds, SettleFails, settle-Settles, Books-tables}
use drip_marketplace.Commission.Refund.Allocated.{AnyError}
use drip_marketplace.Outbox.{queued}
use drip_marketplace.Inventory.{row_passes, can_deduct, deduct}
use drip_marketplace.Orders.{
  moved_to, update_seller_order, update_order, seller_orders_of, is_shipped, is_delivered_status,
}
use drip_marketplace.Orders.Fulfil.{
  seller_order_code, owned_seller_order, next_status, leads_to, is_fulfillable, deduct_items,
  parent_status, log_seller_order, ship_items, settle_delivered, move_seller_order,
  update_seller_order_status,
}

-- Only the stock differs.
abbrev StockOnly : Db → Db → Type 0
StockOnly db db' = db' ≡ record db { inventory = db'.inventory }

deduct-StockOnly : (v q : ℕ) (db : Db) → Ends (λ _ db'. StockOnly db db') AnyError (deduct v q db)
unfolding deduct
deduct-StockOnly v q db = elim (Bool-cases (row_passes (can_deduct q) (lookup v db.inventory))) [
  | inl passes ↦ rw (passes, Ends) refl
  | inr fails ↦ rw (fails, Ends) tt
]

StockOnly-trans : (a b c : Db) → StockOnly a b → StockOnly b c → StockOnly a c
StockOnly-trans a b c p q = q ∙ ap (λ (d : Db). record d { inventory = c.inventory }) p

deduct_items-StockOnly :
    (seller : ℕ) (items : List OrderItem) (db : Db)
    → Ends (λ _ db'. StockOnly db db') AnyError (deduct_items seller items db)
unfolding deduct_items
deduct_items-StockOnly seller [] db = refl
deduct_items-StockOnly seller (item ∷ items) db = elim (Bool-cases (item.seller_id == seller)) [
  | inl own ↦ rw own (
      Ends-then (deduct item.variant_id item.quantity) (λ _ t. StockOnly db t)
        (λ _ t. StockOnly db t) AnyError db (deduct_items seller items)
        (deduct-StockOnly item.variant_id item.quantity db)
        (λ _ t p.
          Ends-weaken (λ _ u. StockOnly t u) (λ _ u. StockOnly db u) AnyError AnyError
            (deduct_items seller items t) (deduct_items-StockOnly seller items t)
            (λ _ u q. StockOnly-trans db t u p q) (λ _ e. e)))
  | inr foreign ↦ rw (foreign, ◌>>◌) (deduct_items-StockOnly seller items db)
]

ship_items-StockOnly :
    (seller : ℕ) (target : SellerOrderStatus) (order : Order) (db : Db)
    → Ends (λ _ db'. StockOnly db db') AnyError (ship_items seller target order db)
ship_items-StockOnly seller target order db = elim (Bool-cases (is_shipped target)) [
  | inl shipping ↦ rw shipping (deduct_items-StockOnly seller order.items db)
  | inr other ↦ rw other refl
]

-- The seller order has the status, the order has that of its seller orders, and the books are kept.
pub record Standing (id : ℕ) (target : SellerOrderStatus) (so : SellerOrder) (db' : Db)
    : Type 0 where
  pub moved : SellerOrder
  pub stored : lookup id db'.seller_orders ≡ some moved
  pub status : moved.status ≡ target
  pub parent : Order
  pub parent_stored : lookup so.order_id db'.orders ≡ some parent
  pub parent_follows : parent.status ≡ parent_status (seller_orders_of so.order_id db')
  pub books : Books db'

-- A delivery that is paid for has its ledger entry.
abbrev pub Earned : ℕ → SellerOrderStatus → SellerOrder → Db → Type 0
Earned id target so db' =
    is_delivered_status target ≡ true
    → is_collected (lookup so.order_id db'.payments) ≡ true
    → (l : CommissionLedger) × (lookup id db'.ledgers ≡ some l)

Standing-kept :
    (id : ℕ) (target : SellerOrderStatus) (so : SellerOrder) (t u : Db)
    → Standing id target so t
    → u.seller_orders ≡ t.seller_orders
    → u.orders ≡ t.orders
    → Books u
    → Standing id target so u
Standing-kept id target so t u s p q b = record {
  moved = s.moved;
  stored = rw p s.stored;
  status = s.status;
  parent = s.parent;
  parent_stored = rw q s.parent_stored;
  parent_follows = rw p s.parent_follows;
  books = b;
}

module _ (now id : ℕ) (target : SellerOrderStatus) (so : SellerOrder) where
  settled-Standing :
      (t u : Db)
      → Standing id target so t
      → SettleEnds now id t u
      → Standing id target so u × Earned id target so u
  settled-Standing t u s (inl (_, l, _, there, same)) = rw same (s, λ _ _. (l, there))
  settled-Standing t u s (inr (_, _, _, _, _, done)) = (
    Standing-kept id target so t u s done.seller_orders_kept done.orders_kept done.books,
    λ _ _. (done.entry, done.found),
  )

  settle_delivered_paid :
      (t : Db)
      → is_delivered_status target ≡ true
      → is_collected (lookup so.order_id t.payments) ≡ true
      → settle_delivered now id target so t ≡ settle now id t
  settle_delivered_paid t delivered paid = rw (delivered, paid) refl

  settle_delivered-Standing :
      (t : Db)
      → t.settings.commission_rate ≤ rate_scale
      → Standing id target so t
      → Ends
          (λ _ u. Standing id target so u × Earned id target so u)
          AnyError
          (settle_delivered now id target so t)
  settle_delivered-Standing t rate s = elim (Bool-cases (is_delivered_status target)) [
    | inr other ↦ rw (other, Ends) (s, λ e _. absurd (ground arith))
    | inl delivered ↦ elim (Bool-cases (is_collected (lookup so.order_id t.payments))) [
      | inr unpaid ↦ rw (delivered, unpaid, Ends) (s, λ _ e. absurd (ground arith))
      | inl paid ↦ rw (settle_delivered_paid t delivered paid) (
          Ends-weaken (λ _ u. SettleEnds now id t u)
            (λ _ u. Standing id target so u × Earned id target so u) (SettleFails now id t) AnyError
            (settle now id t) (settle-Settles now id t s.books rate)
            (λ _ u e. settled-Standing t u s e) (λ _ _. tt))
    ]
  ]

  -- The database between the stock and the settlement.
  abbrev stepped : Db → Db
  stepped t =
      let logged = log_seller_order id so.status target (update_seller_order now id target t) in
      let status = parent_status (seller_orders_of so.order_id logged) in
      record (update_order so.order_id status logged) {
        outbox = queued (Event.order_status so.order_id status) t.outbox;
      }

  stepped-Standing :
      (order : Order) (t : Db)
      → lookup id t.seller_orders ≡ some so
      → lookup so.order_id t.orders ≡ some order
      → Books t
      → Standing id target so (stepped t)
  stepped-Standing order t found parent b =
      let status =
        parent_status (seller_orders_of so.order_id (update_seller_order now id target t)) in
      record {
        moved = moved_to now target so;
        stored = lookup-modify_self id (moved_to now target) so t.seller_orders found;
        status = refl;
        parent = record order { status = status };
        parent_stored =
            lookup-modify_self so.order_id (λ (o : Order). record o { status = status }) order
              t.orders parent;
        parent_follows = refl;
        books = record { ledgers_valid = b.ledgers_valid; allocations_valid = b.allocations_valid };
      }

  move-Standing :
      (seller : ℕ) (order : Order) (db : Db)
      → lookup id db.seller_orders ≡ some so
      → lookup so.order_id db.orders ≡ some order
      → Books db
      → db.settings.commission_rate ≤ rate_scale
      → Ends
          (λ _ u. Standing id target so u × Earned id target so u)
          AnyError
          (move_seller_order now seller id target so order db)
  unfolding move_seller_order
  move-Standing seller order db found parent b rate =
      Ends-then (ship_items seller target order) (λ _ t. StockOnly db t)
        (λ _ u. Standing id target so u × Earned id target so u) AnyError db _
        (ship_items-StockOnly seller target order db)
        (λ _ t stock.
          settle_delivered-Standing (stepped t) (rw (ap (λ (d : Db). d.settings) stock) rate) (
            stepped-Standing order t (rw (ap (λ (d : Db). d.seller_orders) stock) found)
              (rw (ap (λ (d : Db). d.orders) stock) parent)
              (Books-tables db t b (ap (λ (d : Db). d.ledgers) stock)
                (ap (λ (d : Db). d.allocations) stock))))

-- What an update that goes through has done: nothing, when the status is the same already; else the
-- seller order was at the status before, and the order was open for fulfilment.
abbrev pub UpdateEnds : ℕ → ℕ → SellerOrderStatus → Db → Db → Type 0
UpdateEnds seller id target db db' =
    (so : SellerOrder) × (owned_seller_order seller (lookup id db.seller_orders) ≡ some so)
    × (((seller_order_code so.status ≡ seller_order_code target) × (db' ≡ db))
        ⊎ ((leads_to (next_status so.status) target ≡ true)
            × ((order : Order) × (lookup so.order_id db.orders ≡ some order)
                × (is_fulfillable order.status ≡ true))
            × Standing id target so db'
            × Earned id target so db'))

owned-found :
    (seller id : ℕ) (so : SellerOrder) (db : Db)
    → owned_seller_order seller (lookup id db.seller_orders) ≡ some so
    → lookup id db.seller_orders ≡ some so
owned-found seller id so db owned = elim (Option-cases (lookup id db.seller_orders)) [
  | inl absent ↦ absurd (ground (arith, absent))
  | inr (other, found) ↦ ground (arith, found)
]

-- A seller moves its part of an order only to the next status (or leaves it at the same one), and only
-- while the order is open for fulfilment; then the order's status is that of its seller orders, the books
-- are kept, and a delivery that is paid for has its ledger entry.
pub update_seller_order_status-Standing :
    (now seller id : ℕ) (target : SellerOrderStatus) (db : Db)
    → Books db
    → db.settings.commission_rate ≤ rate_scale
    → Ends
        (λ _ db'. UpdateEnds seller id target db db')
        AnyError
        (update_seller_order_status now seller id target db)
unfolding update_seller_order_status
update_seller_order_status-Standing now seller id target db b rate =
    Ends-require P AnyError db (owned_seller_order seller (lookup id db.seller_orders)) _ _
      (λ _. tt)
      (λ so owned.
        Ends-require P AnyError db (lookup so.order_id db.orders) _ _ (λ _. tt)
          (λ order parent.
            elim (Bool-cases (seller_order_code so.status == seller_order_code target)) [
              | inl same ↦ rw (same, Ends) (so, owned, inl (==→eq _ _ same, refl))
              | inr other ↦ rw other (
                  Ends-guard P AnyError db (not (leads_to (next_status so.status) target)) _ _
                    (λ _. tt)
                    (λ leads.
                      Ends-guard P AnyError db (not (is_fulfillable order.status)) _ _ (λ _. tt)
                        (λ fulfillable.
                          Ends-weaken (λ _ u. Standing id target so u × Earned id target so u) P
                            AnyError AnyError (move_seller_order now seller id target so order db)
                            (move-Standing now id target so seller order db
                              (owned-found seller id so db owned) parent b rate)
                            (λ _ u s. (
                              so,
                              owned,
                              inr (ground arith, (order, parent, ground arith), s.0, s.1),
                            ))
                            (λ _ _. tt))))
            ]))
  where
    P : Unit {0} → Db → Type 0
    P _ db' = UpdateEnds seller id target db db'
