-- ===== src/Inventory/Invariant.antt =====
-- The CHECK constraints of `product_inventory` hold after every operation, so that none of them fires.
use drip_marketplace.Prelude.{
  ℕ, ◌≤◌, ◌≡◌, refl, Bool, true, Option, some, List, [], ◌∷◌, arith, Bool-cases, Option-cases, inl,
  inr, ltb,
}
use drip_marketplace.Prelude.Int.{ℤ, pos, ◌+ℤ◌, ltb_ℤ}
use drip_marketplace.Db.{
  Db, Tx, ProductInventory, Ends, Ends-bind, Ends-then, pure, Ends-guard, Holds, Holds-modify,
  Holds-insert, lookup, ◌>>=◌, ◌>>◌, stock_below_reserved, bad_reorder_point,
}
use drip_marketplace.Inventory.{
  write_inventory, row_passes, can_reserve, add_reserved, can_release, sub_reserved, can_deduct,
  sub_sold, create, reserve, release, deduct, get_inventory_for_seller, set_stock, adjust_stock,
  bulk_row, bulk_update_stock, covers_reserved, is_owned, reorder_out_of_range,
}

-- `stock >= reserved` and the reorder point's range; the other two hold of any natural number.
pub record IsStock (inv : ProductInventory) : Type 0 where
  pub reserved_le : inv.reserved ≤ inv.stock
  pub reorder_le : inv.reorder_point ≤ 999999

abbrev pub IsStocked : Db → Type 0
IsStocked db = Holds IsStock db.inventory

-- An operation that keeps the constraints, when it goes through.
abbrev pub Keeps : {A : Type 0} → Tx A → Type 0
Keeps m = (db : Db) → IsStocked db → Ends (λ _ db'. IsStocked db') (λ _. Unit) (m db)

-- A conditional UPDATE keeps the constraints if its new values do for the rows that pass its test.
update-IsStocked :
    (variant_id : ℕ) (test : ProductInventory → Bool) (f : ProductInventory → ProductInventory)
    (db : Db)
    → ((inv : ProductInventory) → test inv ≡ true → IsStock inv → IsStock (f inv))
    → row_passes test (lookup variant_id db.inventory) ≡ true
    → IsStocked db
    → IsStocked (write_inventory variant_id f db)
update-IsStocked variant_id test f db keep passes h =
    Holds-modify IsStock variant_id f db.inventory (λ inv found s. keep inv (rw found at passes) s)
      h

create-Keeps : (variant_id stock : ℕ) → Keeps (create variant_id stock)
unfolding create
create-Keeps variant_id stock db h =
    Holds-insert IsStock variant_id (record { stock = stock; reserved = 0; reorder_point = 5 })
      db.inventory (omega arith) h

reserve-Keeps : (variant_id quantity : ℕ) → Keeps (reserve variant_id quantity)
unfolding reserve
reserve-Keeps variant_id quantity db h =
    elim (Bool-cases (row_passes (can_reserve quantity) (lookup variant_id db.inventory))) [
      | inl passes ↦
          rw (passes, Ends)
            (update-IsStocked variant_id (can_reserve quantity) (add_reserved quantity) db
              (λ inv e s. ground arith) passes h)
      | inr fails ↦ rw (fails, Ends) h
    ]

release-Keeps :
    (strict : Bool) (variant_id quantity : ℕ) → Keeps (release strict variant_id quantity)
unfolding release
release-Keeps strict variant_id quantity db h =
    elim (Bool-cases (row_passes (can_release quantity) (lookup variant_id db.inventory))) [
      | inl passes ↦
          rw (passes, Ends)
            (update-IsStocked variant_id (can_release quantity) (sub_reserved quantity) db
              (λ inv e s. ground arith) passes h)
      | inr fails ↦ elim (Bool-cases strict) [
        | inl minds ↦ rw (fails, minds, Ends) tt
        | inr lets ↦ rw (fails, lets, Ends) h
      ]
    ]

deduct-Keeps : (variant_id quantity : ℕ) → Keeps (deduct variant_id quantity)
unfolding deduct
deduct-Keeps variant_id quantity db h =
    elim (Bool-cases (row_passes (can_deduct quantity) (lookup variant_id db.inventory))) [
      | inl passes ↦
          rw (passes, Ends)
            (update-IsStocked variant_id (can_deduct quantity) (sub_sold quantity) db
              (λ inv e s. ground arith) passes h)
      | inr fails ↦ rw (fails, Ends) tt
    ]

bulk_row-Keeps : (variant_id stock : ℕ) → Keeps (bulk_row variant_id stock)
unfolding bulk_row
bulk_row-Keeps variant_id stock db h =
    elim (Bool-cases (row_passes (covers_reserved stock) (lookup variant_id db.inventory))) [
      | inl passes ↦
          rw (passes, Ends)
            (update-IsStocked variant_id (covers_reserved stock)
              (λ row. record row { stock = stock }) db (λ inv e s. ground arith) passes h)
      | inr fails ↦ rw (fails, Ends) h
    ]

bulk_update_stock-Keeps : (batch : List (ℕ × ℕ)) → Keeps (bulk_update_stock batch)
unfolding bulk_update_stock
bulk_update_stock-Keeps [] db h = h
bulk_update_stock-Keeps ((variant_id, stock) ∷ batch) db h =
    Ends-bind (bulk_row variant_id stock) (λ _ t. IsStocked t) (λ _ t. IsStocked t) (λ _. Unit) db _
      (bulk_row-Keeps variant_id stock db h)
      (λ done t k.
        Ends-bind (bulk_update_stock batch) (λ _ u. IsStocked u) (λ _ u. IsStocked u) (λ _. Unit) t
          _ (bulk_update_stock-Keeps batch t k) (λ _ u l. l))

-- The row that an owner's operation reads is the stored one.
get_inventory-row :
    (variant_id seller_id : ℕ) (db : Db)
    → Ends
        (λ inv t. (t ≡ db) × (lookup variant_id db.inventory ≡ some inv))
        (λ _. Unit)
        (get_inventory_for_seller variant_id seller_id db)
unfolding get_inventory_for_seller
get_inventory-row variant_id seller_id db =
    elim (Bool-cases (is_owned seller_id (lookup variant_id db.variants))) [
      | inl owned ↦ elim (Option-cases (lookup variant_id db.inventory)) [
        | inl absent ↦ rw (owned, ◌>>◌, ◌>>=◌, absent, Ends) tt
        | inr (inv, found) ↦ rw (owned, ◌>>◌, ◌>>=◌, found, Ends) (refl, found)
      ]
      | inr foreign ↦ rw (foreign, ◌>>◌, Ends) tt
    ]

set_stock-Keeps :
    (variant_id seller_id stock : ℕ) (point : Option ℕ)
    → Keeps (set_stock variant_id seller_id stock point)
unfolding set_stock
set_stock-Keeps variant_id seller_id stock point db h =
    Ends-bind (get_inventory_for_seller variant_id seller_id)
      (λ inv t. (t ≡ db) × (lookup variant_id db.inventory ≡ some inv)) P (λ _. Unit) db _
      (get_inventory-row variant_id seller_id db)
      (λ inv t read. rw read.0 (
        Ends-guard P (λ _. Unit) db (ltb stock inv.reserved) stock_below_reserved _ (λ _. tt)
          (λ enough.
            Ends-guard P (λ _. Unit) db (reorder_out_of_range point) bad_reorder_point _ (λ _. tt)
              (λ in_range.
                Holds-modify IsStock variant_id _ db.inventory (λ row found s. ground arith) h))))
  where
    P : Unit {0} → Db → Type 0
    P _ t = IsStocked t

adjust_stock-Keeps :
    (variant_id seller_id : ℕ) (delta : ℤ) → Keeps (adjust_stock variant_id seller_id delta)
unfolding adjust_stock
adjust_stock-Keeps variant_id seller_id delta db h =
    Ends-bind (get_inventory_for_seller variant_id seller_id)
      (λ inv t. (t ≡ db) × (lookup variant_id db.inventory ≡ some inv)) P (λ _. Unit) db _
      (get_inventory-row variant_id seller_id db)
      (λ inv t read. rw read.0 (
        Ends-guard P (λ _. Unit) db (ltb_ℤ (pos inv.stock +ℤ delta) (pos inv.reserved))
          stock_below_reserved _ (λ _. tt)
          (λ enough.
            Holds-modify IsStock variant_id _ db.inventory (λ row found s. ground arith) h)))
  where
    P : ℕ × ℕ → Db → Type 0
    P _ t = IsStocked t

-- The operations on stock, by the requests that make them.
pub data StockOp : Type 0 where
  create_row reserve_units deduct_units : ℕ → ℕ → StockOp
  release_units : Bool → ℕ → ℕ → StockOp
  set_level : ℕ → ℕ → ℕ → Option ℕ → StockOp
  adjust_level : ℕ → ℕ → ℤ → StockOp
  bulk_levels : List (ℕ × ℕ) → StockOp

-- Runs an operation, forgetting what it returns.
unfoldable pub run_stock : StockOp → Tx (Unit {0})
run_stock (StockOp.create_row v stock) = create v stock
run_stock (StockOp.reserve_units v n) = reserve v n >> pure tt
run_stock (StockOp.deduct_units v n) = deduct v n
run_stock (StockOp.release_units strict v n) = release strict v n
run_stock (StockOp.set_level v seller stock point) = set_stock v seller stock point
run_stock (StockOp.adjust_level v seller delta) = adjust_stock v seller delta >> pure tt
run_stock (StockOp.bulk_levels batch) = bulk_update_stock batch >> pure tt

Keeps-forget : {A : Type 0} (m : Tx A) → Keeps m → Keeps (m >> pure tt)
Keeps-forget m keep db h =
    Ends-then m (λ _ t. IsStocked t) (λ _ t. IsStocked t) (λ _. Unit) db (pure tt) (keep db h)
      (λ _ t k. k)

-- Whatever the operation and its arguments, a database whose stock rows satisfy their constraints is
-- left, when the operation goes through, with stock rows that do: reserved units never exceed the stock.
pub run_stock-Keeps : (op : StockOp) → Keeps (run_stock op)
unfolding run_stock
run_stock-Keeps (StockOp.create_row v stock) = create-Keeps v stock
run_stock-Keeps (StockOp.reserve_units v n) = Keeps-forget (reserve v n) (reserve-Keeps v n)
run_stock-Keeps (StockOp.deduct_units v n) = deduct-Keeps v n
run_stock-Keeps (StockOp.release_units strict v n) = release-Keeps strict v n
run_stock-Keeps (StockOp.set_level v seller stock point) = set_stock-Keeps v seller stock point
run_stock-Keeps (StockOp.adjust_level v seller delta) =
    Keeps-forget (adjust_stock v seller delta) (adjust_stock-Keeps v seller delta)
run_stock-Keeps (StockOp.bulk_levels batch) =
    Keeps-forget (bulk_update_stock batch) (bulk_update_stock-Keeps batch)
