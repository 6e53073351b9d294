-- ===== src/Orders/Place/Sellers.antt =====
-- The seller orders of a new order, and its reservations.
use drip_marketplace.Prelude.{
  select-append, ℕ, ◌+◌, ◌≤◌, ◌≡◌, refl, ap, ◌∙◌, inl, inr, true, not, List, [], ◌∷◌, arith, sum_of,
  sum_of-append, Bool-cases, Option-cases,
}
use drip_marketplace.Db.{
  Db, OrderItem, ProductInventory, Ends, Ends-bind, Ends-guard, Ends-weaken, Below, Below-insert,
  insert-append, lookup, total-modify, total-modify_same, Holds-modify,
}
use drip_marketplace.Commission.Refund.Allocated.{AnyError}
use drip_marketplace.Inventory.{can_reserve, add_reserved, reserve}
use drip_marketplace.Inventory.Invariant.{IsStock, IsStocked}
use drip_marketplace.Checkout.{Entry}
use drip_marketplace.Checkout.Allocation.{entry_amount}
use drip_marketplace.Orders.{SellerOrderRow, seller_orders_of}
use drip_marketplace.Orders.Closed.{reserved_total, stock_total, quantity_total}
use drip_marketplace.Orders.Place.{
  new_seller_order, store_seller_order, store_seller_orders, reserve_lines,
}

-- What the sellers of an order are owed for its goods.
abbrev pub owed : ℕ → Db → ℕ
owed order_id db = sum_of (λ (row : SellerOrderRow). row.1.subtotal) (seller_orders_of order_id db)

-- The seller orders are stored under new keys and add up.
pub record SellersStored (order_id : ℕ) (entries : List Entry) (db db' : Db) : Type 0 where
  pub adds_up : owed order_id db' ≡ owed order_id db + sum_of entry_amount entries
  pub fresh : Below db'.next_id db'.seller_orders
  pub later : db.next_id ≤ db'.next_id
  pub frame : db' ≡ record db { seller_orders = db'.seller_orders; next_id = db'.next_id }

pub store_seller_orders-SellersStored :
    (order_id : ℕ) (entries : List Entry) (db : Db)
    → Below db.next_id db.seller_orders
    → SellersStored order_id entries db (store_seller_orders order_id entries db)
unfolding store_seller_orders
store_seller_orders-SellersStored order_id [] db h = record {
  adds_up = omega arith;
  fresh = h;
  later = omega arith;
  frame = refl;
}
store_seller_orders-SellersStored order_id (entry ∷ entries) db h =
    let so = new_seller_order order_id entry.0 entry.1 in
    let next = store_seller_order order_id entry db in
    let rest : SellersStored order_id entries next (store_seller_orders order_id entries next) =
      store_seller_orders-SellersStored order_id entries next
        (Below-insert db.next_id so db.seller_orders h) in
    let one : owed order_id next ≡ owed order_id db + entry.1 =
      rw (insert-append db.next_id so db.seller_orders h, select-append)
        (rw sum_of-append (ground arith)) in
    record {
      adds_up = omega (arith, rest.adds_up, one);
      fresh = rest.fresh;
      later = omega (arith, rest.later);
      frame = rest.frame;
    }

-- The units are reserved, all of them, and the stock rows stay valid.
pub record Reserved (units : ℕ) (db db' : Db) : Type 0 where
  pub frame : db' ≡ record db { inventory = db'.inventory }
  pub stocked : IsStocked db'
  pub stock : stock_total db' ≡ stock_total db
  pub units_reserved : reserved_total db' ≡ reserved_total db + units

reserve-one :
    (v q : ℕ) (db : Db)
    → IsStocked db
    → Ends (λ success db'. success ≡ true → Reserved q db db') AnyError (reserve v q db)
unfolding reserve
reserve-one v q db h = elim (Option-cases (lookup v db.inventory)) [
  | inl absent ↦ rw (absent, Ends) (λ e. absurd (ground arith))
  | inr (inv, found) ↦ elim (Bool-cases (can_reserve q inv)) [
    | inr fails ↦ rw (found, fails, Ends) (λ e. absurd (ground arith))
    | inl passes ↦
        rw (found, passes, Ends)
          (λ _. record {
            frame = refl;
            stocked =
                Holds-modify IsStock v (add_reserved q) db.inventory
                  (λ row e s. ground (arith, found, e, passes)) h;
            stock =
                total-modify_same (λ (i : ProductInventory). i.stock) v (add_reserved q)
                  db.inventory (λ _. refl);
            units_reserved = ground (
              arith,
              total-modify (λ (i : ProductInventory). i.reserved) v (add_reserved q) inv
                  db.inventory found,
            );
          })
  ]
]

Reserved-trans : (m n : ℕ) (a b c : Db) → Reserved m a b → Reserved n b c → Reserved (m + n) a c
Reserved-trans m n a b c p q = record {
  frame = q.frame ∙ ap (λ (d : Db). record d { inventory = c.inventory }) p.frame;
  stocked = q.stocked;
  stock = q.stock ∙ p.stock;
  units_reserved = omega (arith, p.units_reserved, q.units_reserved);
}

pub reserve_lines-Reserved :
    (lines : List OrderItem) (db : Db)
    → IsStocked db
    → Ends (λ _ db'. Reserved (quantity_total lines) db db') AnyError (reserve_lines lines db)
unfolding reserve_lines
reserve_lines-Reserved [] db h = record {
  frame = refl;
  stocked = h;
  stock = refl;
  units_reserved = omega arith;
}
reserve_lines-Reserved (line ∷ lines) db h =
    Ends-bind (reserve line.variant_id line.quantity)
      (λ success t. success ≡ true → Reserved line.quantity db t) P AnyError db _
      (reserve-one line.variant_id line.quantity db h)
      (λ success t one.
        Ends-guard P AnyError t (not success) _ _ (λ _. tt)
          (λ granted.
            let first : Reserved line.quantity db t = one (ground arith) in
            Ends-weaken (λ _ u. Reserved (quantity_total lines) t u) P AnyError AnyError
              (reserve_lines lines t) (reserve_lines-Reserved lines t first.stocked)
              (λ _ u rest. Reserved-trans line.quantity (quantity_total lines) db t u first rest)
              (λ _ _. tt)))
  where
    P : Unit {0} → Db → Type 0
    P _ u = Reserved (quantity_total (line ∷ lines)) db u
