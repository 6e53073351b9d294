-- ===== src/Slots/Purchased.antt =====
-- A purchase takes exactly the price of the slots out of the seller's wallet.
use drip_marketplace.Prelude.{ℕ, ◌+◌, ◌*◌, ◌≡◌, refl, ap, Bool, true, not, some, arith, ltb, leb}
use drip_marketplace.Db.{
  Db, SellerWallet, Ends, Ends-then, Ends-guard, Ends-require, lookup, modify, total-modify, ◌>>◌,
}
use drip_marketplace.Commission.Release.Conserves.{available_total}
use drip_marketplace.Commission.Refund.Allocated.{AnyError}
use drip_marketplace.Wallet.{take_available, debit_available}
use drip_marketplace.Slots.{
  SellerRow, find_seller, is_active, more_slots, charge_wallet, purchase_slots,
}

-- A charge takes the amount out of the wallets, and leaves the sellers as they were.
record Charged (amount : ℕ) (db db' : Db) : Type 0 where
  paid : available_total db' + amount ≡ available_total db
  sellers : db'.sellers ≡ db.sellers

charge_wallet-Charged :
    (seller amount : ℕ) (db : Db)
    → Ends (λ _ db'. Charged amount db db') AnyError (charge_wallet seller amount db)
unfolding charge_wallet debit_available
charge_wallet-Charged seller amount db =
    Ends-require P AnyError db (lookup seller db.wallets) _ _ (λ _. tt)
      (λ w wallet.
        Ends-guard P AnyError db (ltb w.available_balance amount) _ _ (λ _. tt)
          (λ enough.
            let covered : leb amount w.available_balance ≡ true = ground arith in
            let out =
              total-modify (λ (u : SellerWallet). u.available_balance) seller
                (take_available amount) w db.wallets wallet in
            rw (wallet, covered, ◌>>◌, Ends)
              (record { paid = ground (arith, out); sellers = refl })))
  where
    P : Unit {0} → Db → Type 0
    P _ db' = Charged amount db db'

-- The row's seller is active, the price leaves its wallet, and only its own slots grow.
pub record Purchased (user quantity : ℕ) (db db' : Db) (row : SellerRow) : Type 0 where
  pub found : find_seller user db.sellers ≡ some row
  pub active : is_active row.1.status ≡ true
  paid : available_total db' + quantity * db.settings.extra_slot_price ≡ available_total db
  sellers : db'.sellers ≡ modify row.0 (more_slots quantity) db.sellers

-- A slot purchase that goes through is by wallet and for an active seller profile of the account: it takes the quantity
-- times the slot price out of the available balances, and adds the quantity to that profile's slots and to no other row.
pub purchase_slots-Purchased :
    (user quantity : ℕ) (by_wallet : Bool) (db : Db)
    → Ends
        (λ _ db'. (by_wallet ≡ true) × ((row : SellerRow) × Purchased user quantity db db' row))
        AnyError
        (purchase_slots user quantity by_wallet db)
unfolding purchase_slots
purchase_slots-Purchased user quantity by_wallet db =
    Ends-require P AnyError db (find_seller user db.sellers) _ _ (λ _. tt)
      (λ row found.
        Ends-guard P AnyError db (not (is_active row.1.status)) _ _ (λ _. tt)
          (λ active.
            Ends-guard P AnyError db (not by_wallet) _ _ (λ _. tt)
              (λ wallet.
                let price : ℕ = quantity * db.settings.extra_slot_price in
                Ends-then (charge_wallet row.0 price) (λ _ t. Charged price db t) P AnyError db _
                  (charge_wallet-Charged row.0 price db)
                  (λ _ t charged. (
                    ground arith,
                    (
                      row,
                      record {
                        found = found;
                        active = ground arith;
                        paid = charged.paid;
                        sellers = ap (modify row.0 (more_slots quantity)) charged.sellers;
                      },
                    ),
                  )))))
  where
    P : Unit {0} → Db → Type 0
    P _ db' = (by_wallet ≡ true) × ((row : SellerRow) × Purchased user quantity db db' row)
