-- ===== src/Wallet.antt =====
-- Withdrawals and payouts (services/wallet_service.py, with the wallet and payout repositories).
pub mod Decision
pub mod Note
pub mod Payouts
pub mod Review
pub mod Requests
pub mod History
pub mod Completion
use drip_marketplace.Prelude.{
  ℕ, ◌+◌, ◌-◌, Bool, true, false, not, ◌&&◌, ◌||◌, Option, none, some, List, [], ◌∷◌, ◌++◌, length,
  leb, ltb, ◌==◌, is_some, if◌then◌else◌,
}
use drip_marketplace.Db.{
  Tx, ok, err, pure, raise, raise_if, gets, modify_db, or_raise, ◌>>=◌, ◌>>◌, Db, Text,
  SellerWallet, SellerBankAccount, Payout, PayoutStatus, WalletTransaction, WalletTxType, Reference,
  Event, lookup, insert, modify, not_found_wallet, not_found_payout, not_found_bank_account,
  insufficient_balance, below_minimum_withdrawal, above_maximum_withdrawal, balance_changed,
  payout_wrong_status, transfer_evidence, payout_changed, bad_payout_note, bad_transfer_reference,
  completed_with_other_reference, approve_first, wallet_missing,
}
use drip_marketplace.Texts.{strip, is_blank, any_char, same_text, same_optional}
use drip_marketplace.Outbox.{payout_code, queue_notification}

abbrev pub covers : ℕ → Option SellerWallet → Bool
covers amount none = false
covers amount (some wallet) = leb amount wallet.available_balance

abbrev pub take_available : ℕ → SellerWallet → SellerWallet
take_available amount wallet = record wallet {
  available_balance = wallet.available_balance - amount;
}

abbrev pub add_available : ℕ → SellerWallet → SellerWallet
add_available amount wallet = record wallet {
  available_balance = wallet.available_balance + amount;
}

-- `debit_available`: one conditional UPDATE.
unfoldable pub debit_available : ℕ → ℕ → Tx (Unit {0})
debit_available seller_id amount db =
    if covers amount (lookup seller_id db.wallets)
    then ok tt (record db { wallets = modify seller_id (take_available amount) db.wallets })
    else err balance_changed

abbrev pub credit_available : ℕ → ℕ → Tx (Unit {0})
credit_available seller_id amount db =
    ok tt (record db { wallets = modify seller_id (add_available amount) db.wallets })

-- The account, if it is the seller's.
abbrev pub owned_account : ℕ → Option SellerBankAccount → Option SellerBankAccount
owned_account seller_id none = none
owned_account seller_id (some account) =
    if account.seller_id == seller_id then some account else none

-- A column in an f-string: `None` for a NULL.
abbrev pub shown : Option Text → Text
shown none = 78 ∷ 111 ∷ 110 ∷ 101 ∷ []
shown (some text) = text

-- "bank_transfer"
abbrev pub bank_transfer : Text
bank_transfer = 98 ∷ 97 ∷ 110 ∷ 107 ∷ 95 ∷ 116 ∷ 114 ∷ 97 ∷ 110 ∷ 115 ∷ 102 ∷ 101 ∷ 114 ∷ []

-- The bank's name and the account's number, with a dash between them.
abbrev pub payout_detail : SellerBankAccount → Text
payout_detail account = shown account.bank_name ++ 32 ∷ 8212 ∷ 32 ∷ shown account.account_number

abbrev pub new_payout : ℕ → ℕ → SellerBankAccount → Payout
new_payout seller_id amount account = record {
  seller_id = seller_id;
  amount = amount;
  payment_method = bank_transfer;
  payment_detail = payout_detail account;
  status = PayoutStatus.requested;
  admin_note = none;
  transfer_reference = none;
  approved_by = none;
  completed_at = none;
}

abbrev pub available_of : Option SellerWallet → ℕ
available_of none = 0
available_of (some wallet) = wallet.available_balance

abbrev pub payout_transaction : ℕ → WalletTxType → ℕ → ℕ → Option SellerWallet → WalletTransaction
payout_transaction seller_id type amount payout_id wallet = record {
  seller_id = seller_id;
  type = type;
  amount = amount;
  balance_after = available_of wallet;
  reference = Reference.payout_ref payout_id;
  seller_order_id = none;
  payout_id = some payout_id;
}

abbrev pub log_payout : ℕ → WalletTxType → ℕ → ℕ → Db → Db
log_payout seller_id type amount payout_id db = record db {
  transactions =
      payout_transaction seller_id type amount payout_id (lookup seller_id db.wallets)
      ∷ db.transactions;
}

-- The INSERT of a payout and of its wallet transaction.
abbrev pub store_payout : ℕ → ℕ → SellerBankAccount → Db → Db
store_payout seller_id amount account db =
    log_payout seller_id WalletTxType.debit_withdrawal amount db.next_id (record db {
      payouts = insert db.next_id (new_payout seller_id amount account) db.payouts;
      next_id = db.next_id + 1;
    })

unfoldable pub request_withdrawal : ℕ → ℕ → ℕ → Tx (Unit {0})
request_withdrawal seller_id amount bank_account_id = do
  row ← gets (λ db. lookup seller_id db.wallets)
  wallet ← or_raise row not_found_wallet
  limits ← gets (λ db. db.settings)
  raise_if (ltb wallet.available_balance amount) insufficient_balance
  raise_if (ltb amount limits.min_withdrawal_amount) below_minimum_withdrawal
  raise_if (ltb limits.max_withdrawal_amount amount) above_maximum_withdrawal
  found ← gets (λ db. owned_account seller_id (lookup bank_account_id db.bank_accounts))
  account ← or_raise found not_found_bank_account
  debit_available seller_id amount
  modify_db (store_payout seller_id amount account)

-- What an administrator saw of a payout before deciding.
pub record PayoutReview : Type 0 where
  pub expected_status : PayoutStatus
  pub expected_amount : ℕ
  pub expected_seller_id : ℕ
  pub expected_payment_method : Text
  pub expected_payment_detail : Text
  pub expected_admin_note : Option Text

unfoldable pub has_changed : Payout → Option PayoutReview → Bool
has_changed payout none = false
has_changed payout (some review) =
    not (payout_code payout.status == payout_code review.expected_status)
    || (not (payout.amount == review.expected_amount)
        || (not (payout.seller_id == review.expected_seller_id)
            || (not (same_text payout.payment_method review.expected_payment_method)
                || (not (same_text payout.payment_detail review.expected_payment_detail)
                    || not (same_optional payout.admin_note review.expected_admin_note)))))

abbrev pub has_evidence : Payout → Bool
has_evidence payout = is_some payout.transfer_reference || is_some payout.completed_at

-- `_check_payout_review`
unfoldable pub check_payout_review : Payout → Option PayoutReview → Tx (Unit {0})
check_payout_review payout review = do
  raise_if (has_evidence payout) transfer_evidence
  raise_if (has_changed payout review) payout_changed
