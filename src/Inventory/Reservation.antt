-- ===== src/Inventory/Reservation.antt =====
-- A reservation: what it changes, what undoes it, and why stock is never oversold.
use drip_marketplace.Prelude.{
  ℕ, ◌+◌, ◌-◌, ◌≤◌, ◌<◌, ◌≡◌, refl, ap, true, false, some, List, [], ◌∷◌, arith, Bool-cases, inl,
  inr, if◌then◌else◌,
}
use drip_marketplace.Db.{
  Db, ok, ProductInventory, available_stock, ◌>>◌, ◌>>=◌, pure, Tx, Ends, Ends-bind, Never, lookup,
  lookup-modify_self, modify_cancel,
}
use drip_marketplace.Inventory.{
  write_inventory, add_reserved, sub_reserved, sub_sold, can_reserve, can_release, can_deduct,
  reserve, release, deduct,
}
use drip_marketplace.Inventory.Invariant.{IsStock}

reserve_granted :
    (v q : ℕ) (inv : ProductInventory) (db : Db)
    → lookup v db.inventory ≡ some inv
    → q ≤ available_stock inv
    → reserve v q db ≡ ok true (write_inventory v (add_reserved q) db)
unfolding reserve
reserve_granted v q inv db found enough =
    let passes : can_reserve q inv ≡ true = ground arith in rw (found, passes) refl

reserve_denied :
    (v q : ℕ) (inv : ProductInventory) (db : Db)
    → lookup v db.inventory ≡ some inv
    → available_stock inv < q
    → reserve v q db ≡ ok false db
unfolding reserve
reserve_denied v q inv db found short =
    let fails : can_reserve q inv ≡ false = ground arith in rw (found, fails) refl

-- A reservation that the stock covers is undone, to the last row, by its strict release.
pub reserve-release :
    (v q : ℕ) (inv : ProductInventory) (db : Db)
    → lookup v db.inventory ≡ some inv
    → q ≤ available_stock inv
    → (reserve v q >> release true v q) db ≡ ok tt db
unfolding release
reserve-release v q inv db found enough =
    let held = write_inventory v (add_reserved q) db in
    let found' : lookup v held.inventory ≡ some (add_reserved q inv) =
      lookup-modify_self v (add_reserved q) inv db.inventory found in
    let passes : can_release q (add_reserved q inv) ≡ true = ground arith in
    let undone : sub_reserved q (add_reserved q inv) ≡ inv = ground arith in
    rw (reserve_granted v q inv db found enough, ◌>>◌, found', passes)
      (ap (λ t. ok tt (record db { inventory = t }))
        (modify_cancel v (add_reserved q) (sub_reserved q) inv db.inventory found undone))

-- A reservation that the stock covers can be deducted: the units leave the stock, and what the others
-- have reserved stays.
pub reserve-deduct :
    (v q : ℕ) (inv : ProductInventory) (db : Db)
    → lookup v db.inventory ≡ some inv
    → IsStock inv
    → q ≤ available_stock inv
    → (db' : Db) × ((reserve v q >> deduct v q) db ≡ ok tt db')
      × (lookup v db'.inventory ≡ some (record inv { stock = inv.stock - q }))
unfolding deduct
reserve-deduct v q inv db found s enough =
    let held = write_inventory v (add_reserved q) db in
    let found' : lookup v held.inventory ≡ some (add_reserved q inv) =
      lookup-modify_self v (add_reserved q) inv db.inventory found in
    let passes : can_deduct q (add_reserved q inv) ≡ true = ground arith in
    let left : sub_sold q (add_reserved q inv) ≡ record inv { stock = inv.stock - q } =
      ground arith in
    (
      write_inventory v (sub_sold q) held,
      rw (reserve_granted v q inv db found enough, ◌>>◌, found', passes) refl,
      rw (← left) (lookup-modify_self v (sub_sold q) (add_reserved q inv) held.inventory found'),
    )

-- Orders for one variant, one after the other: how many units are granted in all.
unfoldable pub reserve_each : ℕ → List ℕ → Tx ℕ
reserve_each v [] = pure 0
reserve_each v (q ∷ qs) = do
  granted ← reserve v q
  rest ← reserve_each v qs
  pure ((if granted then q else 0) + rest)

-- The stock stays, and what was granted is exactly what is no longer available.
abbrev pub Served : ℕ → ProductInventory → ℕ → Db → Type 0
Served v inv granted db' =
    (inv' : ProductInventory) × (lookup v db'.inventory ≡ some inv')
    × (inv'.stock ≡ inv.stock)
    × (granted + available_stock inv' ≡ available_stock inv)

-- However many orders come, the units granted are never more than were available, and what is granted
-- is exactly what is no longer available.
pub reserve_each-available :
    (v : ℕ) (qs : List ℕ) (inv : ProductInventory) (db : Db)
    → lookup v db.inventory ≡ some inv
    → IsStock inv
    → Ends (Served v inv) Never (reserve_each v qs db)
unfolding reserve_each
reserve_each-available v [] inv db found s = (inv, found, refl, omega arith)
reserve_each-available v (q ∷ qs) inv db found s = elim (Bool-cases (can_reserve q inv)) [
  | inl enough ↦
      let held = write_inventory v (add_reserved q) db in
      rw (reserve_granted v q inv db found (ground arith), ◌>>=◌, Ends)
        (Ends-bind (reserve_each v qs) (Served v (add_reserved q inv)) (Served v inv) Never held _
          (reserve_each-available v qs (add_reserved q inv) held
            (lookup-modify_self v (add_reserved q) inv db.inventory found) (ground arith))
          (λ rest t h. (h.0, h.1, h.2, ground (arith, h.3))))
  | inr short ↦
      rw (reserve_denied v q inv db found (ground arith), ◌>>=◌, Ends)
        (Ends-bind (reserve_each v qs) (Served v inv) (Served v inv) Never db _
          (reserve_each-available v qs inv db found s)
          (λ rest t h. (h.0, h.1, h.2, omega (arith, h.3))))
]
