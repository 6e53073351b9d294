-- ===== src/Commission/Debit.antt =====
-- `_apply_debit`: a refund takes back what it can from the seller's wallet.
pub mod Wallet
use drip_marketplace.Prelude.{ℕ, ◌+◌, ◌-◌, Bool, Option, none, some, ◌∷◌, min, if◌then◌else◌}
use drip_marketplace.Db.{
  Tx, ok, Db, SellerWallet, WalletTransaction, WalletTxType, Reference, lookup, modify,
}

-- `from_pending` and `from_available`.
unfoldable pub debit_parts : Bool → ℕ → SellerWallet → ℕ × ℕ
debit_parts released debit wallet = if released then (0, min debit wallet.available_balance) else (
  min debit wallet.pending_balance,
  min (debit - min debit wallet.pending_balance) wallet.available_balance,
)

-- Both parts lie within their balance, so the differences are those of the UPDATE; a part that is 0
-- leaves its balance as it is.
abbrev pub take_parts : ℕ × ℕ → SellerWallet → SellerWallet
take_parts parts wallet = record wallet {
  pending_balance = wallet.pending_balance - parts.0;
  available_balance = wallet.available_balance - parts.1;
}

abbrev pub debit_transaction : ℕ → ℕ → Reference → ℕ → ℕ × ℕ → SellerWallet → WalletTransaction
debit_transaction seller_id debit reference seller_order_id parts wallet = record {
  seller_id = seller_id;
  type = WalletTxType.debit_adjustment;
  amount = debit;
  balance_after = wallet.pending_balance - parts.0 + (wallet.available_balance - parts.1);
  reference = reference;
  seller_order_id = some seller_order_id;
  payout_id = none;
}

-- The amount recovered; nothing happens when there is no wallet.
unfoldable pub apply_debit : ℕ → ℕ → Reference → ℕ → Bool → Tx ℕ
apply_debit seller_id debit reference seller_order_id released db =
    elim (lookup seller_id db.wallets) [
      | none ↦ ok 0 db
      | some wallet ↦
          let parts = debit_parts released debit wallet in
          ok (parts.0 + parts.1) (record db {
            wallets = modify seller_id (take_parts parts) db.wallets;
            transactions =
                debit_transaction seller_id debit reference seller_order_id parts wallet
                ∷ db.transactions;
          })
    ]
