-- ===== src/Slots.antt =====
-- Listing slots that a seller buys from its wallet (services/slot_service.py, repositories/seller_repo.py).
pub mod Purchased
use drip_marketplace.Prelude.{
  ℕ, ◌+◌, ◌-◌, ◌*◌, Bool, true, false, not, Option, none, some, List, [], ◌∷◌, ltb, leb, ◌==◌,
  if◌then◌else◌,
}
use drip_marketplace.Db.{
  Tx, ok, pure, raise_if, gets, modify_db, or_raise, ◌>>=◌, ◌>>◌, Db, Seller, SellerStatus,
  SellerWallet, WalletTransaction, WalletTxType, Reference, lookup, modify, not_found_seller,
  not_found_wallet, seller_not_active, wallet_payment_only, insufficient_balance, no_slots,
}
use drip_marketplace.Wallet.{debit_available, available_of}

abbrev pub SellerRow : Type 0
SellerRow = ℕ × Seller

-- `get_by_user_id`: an account has at most one seller profile; the table holds those that are not deleted.
unfoldable pub find_seller : ℕ → List SellerRow → Option SellerRow
find_seller user_id [] = none
find_seller user_id (row ∷ rows) =
    if row.1.user_id == user_id then some row else find_seller user_id rows

abbrev pub is_active : SellerStatus → Bool
is_active SellerStatus.active = true
is_active _ = false

abbrev pub more_slots : ℕ → Seller → Seller
more_slots quantity seller = record seller { total_slots = seller.total_slots + quantity }

-- `add_slots`
abbrev pub add_slots : ℕ → ℕ → Db → Db
add_slots seller_id quantity db = record db {
  sellers = modify seller_id (more_slots quantity) db.sellers;
}

-- The transaction's reference is a new UUID.
abbrev pub slot_transaction : ℕ → ℕ → ℕ → Option SellerWallet → WalletTransaction
slot_transaction seller_id amount number wallet = record {
  seller_id = seller_id;
  type = WalletTxType.debit_adjustment;
  amount = amount;
  balance_after = available_of wallet;
  reference = Reference.slot_purchase number;
  seller_order_id = none;
  payout_id = none;
}

abbrev pub log_slots : ℕ → ℕ → Db → Db
log_slots seller_id amount db = record db {
  transactions =
      slot_transaction seller_id amount db.next_id (lookup seller_id db.wallets) ∷ db.transactions;
  next_id = db.next_id + 1;
}

-- `_charge_wallet`
unfoldable pub charge_wallet : ℕ → ℕ → Tx (Unit {0})
charge_wallet seller_id amount = do
  row ← gets (λ db. lookup seller_id db.wallets)
  wallet ← or_raise row not_found_wallet
  raise_if (ltb wallet.available_balance amount) insufficient_balance
  debit_available seller_id amount
  modify_db (log_slots seller_id amount)

-- `purchase_slots`; `by_wallet` tells whether the request asks to pay from the wallet.
unfoldable pub purchase_slots : ℕ → ℕ → Bool → Tx (Unit {0})
purchase_slots user_id quantity by_wallet = do
  found ← gets (λ db. find_seller user_id db.sellers)
  row ← or_raise found not_found_seller
  raise_if (not (is_active row.1.status)) seller_not_active
  raise_if (not by_wallet) wallet_payment_only
  policy ← gets (λ db. db.settings)
  charge_wallet row.0 (quantity * policy.extra_slot_price)
  modify_db (add_slots row.0 quantity)

-- `assert_slot_available`
unfoldable pub assert_slot_available : ℕ → Tx (Unit {0})
assert_slot_available seller_id = do
  row ← gets (λ db. lookup seller_id db.sellers)
  seller ← or_raise row not_found_seller
  raise_if (leb seller.total_slots seller.slots_used) no_slots
