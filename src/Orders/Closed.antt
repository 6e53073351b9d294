-- ===== src/Orders/Closed.antt =====
-- What cancelling an order does: its seller orders and itself are cancelled, its reservations are given
-- back, and the stock is untouched.
use drip_marketplace.Prelude.{
  ℕ, ◌+◌, ◌≤◌, ◌≡◌, refl, ap, ◌∙◌, inl, inr, Bool, true, false, ◌||◌, some, List, [], ◌∷◌, arith,
  select, sum_of, ◌==◌, ==→eq, Bool-cases, Option-cases,
}
use drip_marketplace.Db.{
  Db, Order, OrderItem, OrderStatus, SellerOrder, SellerOrderStatus, ProductInventory, Ends,
  Ends-then, Ends-weaken, lookup, on_row, lookup-modify, lookup-modify_self, total, total-modify,
  total-modify_same,
}
use drip_marketplace.Commission.Refund.Allocated.{AnyError}
use drip_marketplace.Inventory.{can_release, sub_reserved, release}
use drip_marketplace.Orders.{
  SellerOrderRow, order_status_of, moved_to, update_seller_order, seller_orders_of, release_items,
  cancel_all, close_order,
}

abbrev pub reserved_total : Db → ℕ
reserved_total db = total (λ (i : ProductInventory). i.reserved) db.inventory

abbrev pub stock_total : Db → ℕ
stock_total db = total (λ (i : ProductInventory). i.stock) db.inventory

abbrev pub quantity_total : List OrderItem → ℕ
quantity_total items = sum_of (λ (item : OrderItem). item.quantity) items

-- What a release of some units does to the stock table; only the strict form is sure to release them all.
pub record Released (strict : Bool) (units : ℕ) (db db' : Db) : Type 0 where
  pub frame : db' ≡ record db { inventory = db'.inventory }
  pub stock : stock_total db' ≡ stock_total db
  pub fewer : reserved_total db' ≤ reserved_total db
  pub all_units : strict ≡ true → reserved_total db' + units ≡ reserved_total db

release-Released :
    (strict : Bool) (v q : ℕ) (db : Db)
    → Ends (λ _ db'. Released strict q db db') AnyError (release strict v q db)
unfolding release
release-Released strict v q db = elim (Option-cases (lookup v db.inventory)) [
  | inl absent ↦ elim (Bool-cases strict) [
    | inl minds ↦ rw (absent, minds, Ends) tt
    | inr lets ↦
        rw (absent, Ends)
          (rw lets (record {
            frame = refl;
            stock = refl;
            fewer = omega arith;
            all_units = λ e. absurd (ground arith);
          }))
  ]
  | inr (inv, found) ↦ elim (Bool-cases (can_release q inv)) [
    | inl passes ↦
        rw (found, passes, Ends)
          (record {
            frame = refl;
            stock =
                total-modify_same (λ (i : ProductInventory). i.stock) v (sub_reserved q)
                  db.inventory (λ _. refl);
            fewer = ground (
              arith,
              total-modify (λ (i : ProductInventory). i.reserved) v (sub_reserved q) inv
                  db.inventory found,
            );
            all_units = λ _. ground (
              arith,
              total-modify (λ (i : ProductInventory). i.reserved) v (sub_reserved q) inv
                  db.inventory found,
            );
          })
    | inr fails ↦ elim (Bool-cases strict) [
      | inl minds ↦ rw (found, fails, minds, Ends) tt
      | inr lets ↦
          rw (found, fails, Ends)
            (rw lets (record {
              frame = refl;
              stock = refl;
              fewer = omega arith;
              all_units = λ e. absurd (ground arith);
            }))
    ]
  ]
]

Released-trans :
    (strict : Bool) (m n : ℕ) (a b c : Db)
    → Released strict m a b
    → Released strict n b c
    → Released strict (m + n) a c
Released-trans strict m n a b c p q = record {
  frame = q.frame ∙ ap (λ (d : Db). record d { inventory = c.inventory }) p.frame;
  stock = q.stock ∙ p.stock;
  fewer = omega (arith, p.fewer, q.fewer);
  all_units = λ e. omega (arith, p.all_units e, q.all_units e);
}

pub release_items-Released :
    (strict : Bool) (items : List OrderItem) (db : Db)
    → Ends
        (λ _ db'. Released strict (quantity_total items) db db')
        AnyError
        (release_items strict items db)
unfolding release_items
release_items-Released strict [] db = record {
  frame = refl;
  stock = refl;
  fewer = omega arith;
  all_units = λ _. omega arith;
}
release_items-Released strict (item ∷ items) db =
    Ends-then (release strict item.variant_id item.quantity)
      (λ _ t. Released strict item.quantity db t)
      (λ _ t. Released strict (quantity_total (item ∷ items)) db t) AnyError db
      (release_items strict items) (release-Released strict item.variant_id item.quantity db)
      (λ _ t p.
        Ends-weaken (λ _ u. Released strict (quantity_total items) t u)
          (λ _ u. Released strict (quantity_total (item ∷ items)) db u) AnyError AnyError
          (release_items strict items t) (release_items-Released strict items t)
          (λ _ u q. Released-trans strict item.quantity (quantity_total items) db t u p q)
          (λ _ _. tt))

-- Is the identifier one of the rows'?
occurs : ℕ → List SellerOrderRow → Bool
occurs id [] = false
occurs id (row ∷ rows) = row.0 == id || occurs id rows

abbrev IsCancelledAt : ℕ → Db → Type 0
IsCancelledAt id db =
    (so : SellerOrder) × (lookup id db.seller_orders ≡ some so)
    × (so.status ≡ SellerOrderStatus.cancelled)

update-IsCancelledAt :
    (now id other : ℕ) (db : Db)
    → IsCancelledAt id db
    → IsCancelledAt id (update_seller_order now other SellerOrderStatus.cancelled db)
update-IsCancelledAt now id other db (so, found, cancelled) = elim (Bool-cases (other == id)) [
  | inl same ↦
      let made : on_row (moved_to now SellerOrderStatus.cancelled) (lookup id db.seller_orders)
          ≡ some (moved_to now SellerOrderStatus.cancelled so) =
        ap (on_row (moved_to now SellerOrderStatus.cancelled)) found in
      (moved_to now SellerOrderStatus.cancelled so, rw (lookup-modify, same) made, refl)
  | inr apart ↦ (so, rw (lookup-modify, apart) found, cancelled)
]

cancel_all-keeps :
    (now id : ℕ) (rows : List SellerOrderRow) (db : Db)
    → IsCancelledAt id db
    → IsCancelledAt id (cancel_all now rows db)
unfolding cancel_all
cancel_all-keeps now id [] db h = h
cancel_all-keeps now id (row ∷ rows) db h =
    cancel_all-keeps now id rows (update_seller_order now row.0 SellerOrderStatus.cancelled db)
      (update-IsCancelledAt now id row.0 db h)

cancel_all-cancels :
    (now id : ℕ) (rows : List SellerOrderRow) (db : Db) (so : SellerOrder)
    → lookup id db.seller_orders ≡ some so
    → occurs id rows ≡ true
    → IsCancelledAt id (cancel_all now rows db)
unfolding cancel_all occurs
cancel_all-cancels now id [] db so found h = absurd (ground arith)
cancel_all-cancels now id (row ∷ rows) db so found h = elim (Bool-cases (row.0 == id)) [
  | inl same ↦
      let made : on_row (moved_to now SellerOrderStatus.cancelled) (lookup id db.seller_orders)
          ≡ some (moved_to now SellerOrderStatus.cancelled so) =
        ap (on_row (moved_to now SellerOrderStatus.cancelled)) found in
      cancel_all-keeps now id rows (update_seller_order now row.0 SellerOrderStatus.cancelled db)
        (moved_to now SellerOrderStatus.cancelled so, rw (lookup-modify, same) made, refl)
  | inr apart ↦
      cancel_all-cancels now id rows (update_seller_order now row.0 SellerOrderStatus.cancelled db)
        so (rw (lookup-modify, apart) found) (ground arith)
]

occurs-select :
    (id : ℕ) (so : SellerOrder) (p : SellerOrderRow → Bool) (t : List SellerOrderRow)
    → lookup id t ≡ some so
    → p (id, so) ≡ true
    → occurs id (select p t) ≡ true
unfolding lookup occurs
occurs-select id so p [] found h = absurd (ground arith)
occurs-select id so p ((j, w) ∷ t) found h = elim (Bool-cases (j == id)) [
  | inl same ↦
      let w-so : w ≡ so = ground arith in
      let chosen : p (j, w) ≡ true = rw (==→eq j id same, w-so) h in rw (chosen, same) refl
  | inr apart ↦ elim (Bool-cases (p (j, w))) [
    | inl chosen ↦ rw (chosen, apart) (occurs-select id so p t (ground arith) h)
    | inr passed ↦ rw passed (occurs-select id so p t (ground arith) h)
  ]
]

-- A closed order: it and all its seller orders are cancelled, its units are given back, the stock is the same.
pub record Closed (strict : Bool) (order_id : ℕ) (items : List OrderItem) (db db' : Db)
    : Type 0 where
  pub order_closed : order_status_of (lookup order_id db'.orders) ≡ some OrderStatus.cancelled
  pub seller_orders_closed :
      (id : ℕ) (so : SellerOrder)
      → lookup id db.seller_orders ≡ some so
      → so.order_id ≡ order_id
      → (so' : SellerOrder) × (lookup id db'.seller_orders ≡ some so')
        × (so'.status ≡ SellerOrderStatus.cancelled)
  pub stock : stock_total db' ≡ stock_total db
  pub fewer : reserved_total db' ≤ reserved_total db
  pub all_units : strict ≡ true → reserved_total db' + quantity_total items ≡ reserved_total db

cancel_all-frame :
    (now : ℕ) (rows : List SellerOrderRow) (db : Db)
    → cancel_all now rows db ≡ record db { seller_orders = (cancel_all now rows db).seller_orders }
unfolding cancel_all
cancel_all-frame now [] db = refl
cancel_all-frame now (row ∷ rows) db =
    let next = update_seller_order now row.0 SellerOrderStatus.cancelled db in
    cancel_all-frame now rows next

pub close_order-Closed :
    (now : ℕ) (strict : Bool) (order_id : ℕ) (items : List OrderItem) (order : Order) (db : Db)
    → lookup order_id db.orders ≡ some order
    → Ends
        (λ _ db'. Closed strict order_id items db db')
        AnyError
        (close_order now strict order_id items db)
unfolding close_order
close_order-Closed now strict order_id items order db found =
    Ends-then (release_items strict items) (λ _ t. Released strict (quantity_total items) db t)
      (λ _ db'. Closed strict order_id items db db') AnyError db _
      (release_items-Released strict items db)
      (λ _ t r.
        let rows = seller_orders_of order_id t in
        let same : cancel_all now rows t
            ≡ record t { seller_orders = (cancel_all now rows t).seller_orders } =
          cancel_all-frame now rows t in
        let orders : (cancel_all now rows t).orders ≡ db.orders =
          ap (λ (d : Db). d.orders) same ∙ ap (λ (d : Db). d.orders) r.frame in
        let shelves : (cancel_all now rows t).inventory ≡ t.inventory =
          ap (λ (d : Db). d.inventory) same in
        record {
          order_closed = rw orders (
              ap order_status_of (
                lookup-modify_self order_id
                  (λ (o : Order). record o { status = OrderStatus.cancelled }) order db.orders
                  found));
          seller_orders_closed = λ id so there mine.
              cancel_all-cancels now id rows t so
                (rw (ap (λ (d : Db). d.seller_orders) r.frame) there)
                (occurs-select id so (λ row. row.1.order_id == order_id) t.seller_orders
                  (rw (ap (λ (d : Db). d.seller_orders) r.frame) there) (ground (arith, mine)));
          stock = rw shelves r.stock;
          fewer = rw shelves r.fewer;
          all_units = rw shelves r.all_units;
        })
