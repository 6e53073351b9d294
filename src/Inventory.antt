-- ===== src/Inventory.antt =====
-- Stock and reservations (repositories/inventory_repo.py, services/inventory_service.py).
pub mod Invariant
pub mod Reservation
use drip_marketplace.Prelude.{
  ℕ, ◌+◌, ◌-◌, Bool, true, false, not, ◌&&◌, ◌||◌, Option, none, some, List, [], ◌∷◌, leb, ltb,
  ◌==◌, is_some, if◌then◌else◌,
}
use drip_marketplace.Prelude.Int.{ℤ, pos, ◌+ℤ◌, ltb_ℤ, pos_part}
use drip_marketplace.Db.{
  Tx, ok, err, pure, gets, modify_db, raise_if, or_raise, ◌>>=◌, ◌>>◌, Db, ProductInventory,
  Variant, lookup, insert, modify, inventory_inconsistent, not_found_variant, stock_below_reserved,
  bad_reorder_point,
}

abbrev pub write_inventory : ℕ → (ProductInventory → ProductInventory) → Db → Db
write_inventory variant_id f db = record db { inventory = modify variant_id f db.inventory }

-- `InventoryRepository.create`, with the column's default reorder point.
unfoldable pub create : ℕ → ℕ → Tx (Unit {0})
create variant_id stock db = ok tt (record db {
  inventory =
      insert variant_id (record { stock = stock; reserved = 0; reorder_point = 5 }) db.inventory;
})

-- The WHERE clauses: does the row exist, and does it pass the test?
abbrev pub row_passes : (ProductInventory → Bool) → Option ProductInventory → Bool
row_passes test none = false
row_passes test (some inv) = test inv

abbrev pub can_reserve : ℕ → ProductInventory → Bool
can_reserve quantity inv = leb quantity (inv.stock - inv.reserved)

abbrev pub add_reserved : ℕ → ProductInventory → ProductInventory
add_reserved quantity inv = record inv { reserved = inv.reserved + quantity }

abbrev pub can_release : ℕ → ProductInventory → Bool
can_release quantity inv = leb quantity inv.reserved

abbrev pub sub_reserved : ℕ → ProductInventory → ProductInventory
sub_reserved quantity inv = record inv { reserved = inv.reserved - quantity }

abbrev pub can_deduct : ℕ → ProductInventory → Bool
can_deduct quantity inv = leb quantity inv.reserved && leb quantity inv.stock

abbrev pub sub_sold : ℕ → ProductInventory → ProductInventory
sub_sold quantity inv = record inv {
  stock = inv.stock - quantity;
  reserved = inv.reserved - quantity;
}

-- `reserve`: one conditional UPDATE; `False` when it changes no row.
unfoldable pub reserve : ℕ → ℕ → Tx Bool
reserve variant_id quantity db =
    if row_passes (can_reserve quantity) (lookup variant_id db.inventory)
    then ok true (write_inventory variant_id (add_reserved quantity) db)
    else ok false db

-- `release`; only the strict form minds when no row was changed.
unfoldable pub release : Bool → ℕ → ℕ → Tx (Unit {0})
release strict variant_id quantity db =
    if row_passes (can_release quantity) (lookup variant_id db.inventory)
    then ok tt (write_inventory variant_id (sub_reserved quantity) db)
    else if strict
    then err inventory_inconsistent
    else ok tt db

unfoldable pub deduct : ℕ → ℕ → Tx (Unit {0})
deduct variant_id quantity db =
    if row_passes (can_deduct quantity) (lookup variant_id db.inventory)
    then ok tt (write_inventory variant_id (sub_sold quantity) db)
    else err inventory_inconsistent

-- `_get_inventory_for_seller`: the row of a variant whose product the seller owns and that is not deleted.
abbrev pub is_owned : ℕ → Option Variant → Bool
is_owned seller_id none = false
is_owned seller_id (some v) = v.seller_id == seller_id && not v.product_deleted

unfoldable pub get_inventory_for_seller : ℕ → ℕ → Tx ProductInventory
get_inventory_for_seller variant_id seller_id = do
  owned ← gets (λ db. is_owned seller_id (lookup variant_id db.variants))
  raise_if (not owned) not_found_variant
  row ← gets (λ db. lookup variant_id db.inventory)
  or_raise row not_found_variant

abbrev pub reorder_out_of_range : Option ℕ → Bool
reorder_out_of_range none = false
reorder_out_of_range (some point) = ltb 999999 point

abbrev pub new_reorder_point : Option ℕ → ℕ → ℕ
new_reorder_point none old = old
new_reorder_point (some point) old = point

-- The stock of the request is not negative (schemas/product.py bounds it).
unfoldable pub set_stock : ℕ → ℕ → ℕ → Option ℕ → Tx (Unit {0})
set_stock variant_id seller_id stock reorder_point = do
  inv ← get_inventory_for_seller variant_id seller_id
  raise_if (ltb stock inv.reserved) stock_below_reserved
  raise_if (reorder_out_of_range reorder_point) bad_reorder_point
  modify_db (
      write_inventory variant_id (λ row. record row {
        stock = stock;
        reorder_point = new_reorder_point reorder_point row.reorder_point;
      }))

-- `adjust_stock`, with a signed delta; returns the previous and the new stock. A stock that passes the
-- test is not negative, so that it is stored as it is.
unfoldable pub adjust_stock : ℕ → ℕ → ℤ → Tx (ℕ × ℕ)
adjust_stock variant_id seller_id delta = do
  inv ← get_inventory_for_seller variant_id seller_id
  let new_stock = pos inv.stock +ℤ delta
  raise_if (ltb_ℤ new_stock (pos inv.reserved)) stock_below_reserved
  modify_db (write_inventory variant_id (λ row. record row { stock = pos_part new_stock }))
  pure (inv.stock, pos_part new_stock)

-- One row of `bulk_update_stock`, the conditional UPDATE in its savepoint: the number of rows changed.
abbrev pub covers_reserved : ℕ → ProductInventory → Bool
covers_reserved stock inv = leb inv.reserved stock

unfoldable pub bulk_row : ℕ → ℕ → Tx Bool
bulk_row variant_id stock db =
    if row_passes (covers_reserved stock) (lookup variant_id db.inventory)
    then ok true (write_inventory variant_id (λ row. record row { stock = stock }) db)
    else ok false db

-- The loop over the batch, in the order of the variants' identifiers: the number of updated rows and
-- the variants that failed.
unfoldable pub bulk_update_stock : List (ℕ × ℕ) → Tx (ℕ × List ℕ)
bulk_update_stock [] = pure (0, [])
bulk_update_stock ((variant_id, stock) ∷ batch) = do
  done ← bulk_row variant_id stock
  rest ← bulk_update_stock batch
  pure (if done then (rest.0 + 1, rest.1) else (rest.0, variant_id ∷ rest.1))

-- `is_low_stock`
unfoldable pub is_low_stock : ProductInventory → Bool
is_low_stock inv = leb (inv.stock - inv.reserved) inv.reorder_point
