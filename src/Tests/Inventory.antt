-- ===== src/Tests/Inventory.antt =====
-- The stock operations on the databases of Tests.
use mathlib.Core.Path.{subst}
use drip_marketplace.Prelude.{ℕ, ◌-◌, ◌≡◌, refl, true, some, [], ◌∷◌, arith}
use drip_marketplace.Db.{Db, ProductInventory, Ends, Never, lookup, modify, ok, ◌>>◌}
use drip_marketplace.Inventory.{reserve, release, deduct}
use drip_marketplace.Inventory.Invariant.{IsStock, IsStocked, StockOp, run_stock, run_stock-Keeps}
use drip_marketplace.Inventory.Reservation.{
  reserve-release, reserve-deduct, reserve_each, Served, reserve_each-available,
}
use drip_marketplace.Tests.{shelf, shop}

only_shelf : (j : ℕ) (inv : ProductInventory) → lookup j shop.inventory ≡ some inv → shelf ≡ inv
unfolding lookup
only_shelf j inv e = ground arith

shop-IsStocked : IsStocked shop
shop-IsStocked j inv e = subst IsStock (only_shelf j inv e) (omega arith)

run_stock-Keeps_example :
    Ends
      (λ _ db'. IsStocked db')
      (λ _. Unit)
      (run_stock (StockOp.bulk_levels ((40, 0) ∷ (40, 9) ∷ [])) shop)
run_stock-Keeps_example =
    run_stock-Keeps (StockOp.bulk_levels ((40, 0) ∷ (40, 9) ∷ [])) shop shop-IsStocked

reserve_each-available_example :
    Ends (Served 40 shelf) Never (reserve_each 40 (3 ∷ 2 ∷ 1 ∷ []) shop)
unfolding lookup
reserve_each-available_example =
    reserve_each-available 40 (3 ∷ 2 ∷ 1 ∷ []) shelf shop refl (omega arith)

reserve-release_example : (reserve 40 3 >> release true 40 3) shop ≡ ok tt shop
unfolding lookup
reserve-release_example = reserve-release 40 3 shelf shop refl (omega arith)

reserve-deduct_example :
    (db' : Db) × ((reserve 40 3 >> deduct 40 3) shop ≡ ok tt db')
    × (lookup 40 db'.inventory ≡ some (record shelf { stock = 5 - 3 }))
unfolding lookup
reserve-deduct_example = reserve-deduct 40 3 shelf shop refl (omega arith) (omega arith)

-- Of three orders for 3, 2 and 1 units, with 4 available, the first and the last are granted.
three_orders : Ends (λ granted _. granted ≡ 4) Never (reserve_each 40 (3 ∷ 2 ∷ 1 ∷ []) shop)
unfolding reserve_each reserve lookup modify
three_orders = refl
