-- ===== src/Tests/Slots.antt =====
-- A slot purchase on the databases of Tests.
use drip_marketplace.Prelude.{ℕ, ◌≡◌, refl, true, Option, none, some, [], ◌∷◌}
use drip_marketplace.Db.{Db, Seller, SellerStatus, Ends, Never, lookup, modify}
use drip_marketplace.Commission.Refund.Allocated.{AnyError}
use drip_marketplace.Wallet.{debit_available}
use drip_marketplace.Slots.{SellerRow, find_seller, charge_wallet, purchase_slots}
use drip_marketplace.Slots.Purchased.{Purchased, purchase_slots-Purchased}
use drip_marketplace.Tests.{wallet, shop}

abbrev profile : Seller
profile = record { user_id = 70; status = SellerStatus.active; total_slots = 5; slots_used = 5 }

-- Account 70 is seller 7, who has 1,000 rupees.
abbrev full : Db
full = record shop {
  sellers = (7, profile) ∷ [];
  wallets = (7, record wallet { available_balance = 100000 }) ∷ [];
}

abbrev slots_of : Option Seller → Option ℕ
slots_of none = none
slots_of (some seller) = some seller.total_slots

-- Two slots more.
two_slots :
    Ends (λ _ db'. slots_of (lookup 7 db'.sellers) ≡ some 7) Never (purchase_slots 70 2 true full)
unfolding purchase_slots find_seller charge_wallet debit_available lookup modify
two_slots = refl

purchase_slots-Purchased_example :
    Ends
      (λ _ db'. (true ≡ true) × ((row : SellerRow) × Purchased 70 2 full db' row))
      AnyError
      (purchase_slots 70 2 true full)
purchase_slots-Purchased_example = purchase_slots-Purchased 70 2 true full
