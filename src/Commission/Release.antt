-- ===== src/Commission/Release.antt =====
-- `release_mature`: the net amount of each mature ledger moves from the held to the withdrawable balance
-- of its seller, unless a return, a dispute or an unexplained refund holds it.
pub mod Conserves
use drip_marketplace.Prelude.{
  ℕ, ◌+◌, ◌-◌, Bool, true, false, not, ◌&&◌, ◌||◌, Option, none, some, List, [], ◌∷◌, select, ltb,
  leb, ◌==◌, is_some, if◌then◌else◌,
}
use drip_marketplace.Db.{
  Tx, ok, pure, ◌>>=◌, Db, SellerWallet, CommissionLedger, WalletTransaction, WalletTxType,
  Reference, Refund, Return, ReturnStatus, Dispute, DisputeStatus, SellerOrder, lookup, insert,
  modify, net_seller_amount,
}
use drip_marketplace.Commission.Settle.{is_delivered}

abbrev pub LedgerRow : Type 0
LedgerRow = ℕ × CommissionLedger

-- The return statuses and the dispute statuses that hold a settlement.
abbrev pub return_holds : ReturnStatus → Bool
return_holds ReturnStatus.requested = true
return_holds ReturnStatus.approved = true
return_holds ReturnStatus.received = true
return_holds _ = false

abbrev pub dispute_status_holds : DisputeStatus → Bool
dispute_status_holds DisputeStatus.open_dispute = true
dispute_status_holds DisputeStatus.under_review = true
dispute_status_holds DisputeStatus.resolved_customer = true
dispute_status_holds _ = false

abbrev pub dispute_holds : Option Dispute → Bool
dispute_holds none = false
dispute_holds (some dispute) = dispute_status_holds dispute.status

abbrev pub any_row {ℓ} : {V : Type ℓ} → (ℕ → V → Bool) → List (ℕ × V) → Bool
any_row p [] = false
any_row p ((k, v) ∷ rows) = p k v || any_row p rows

-- `active_hold is not None`
unfoldable pub has_active_hold : ℕ → Db → Bool
has_active_hold seller_order_id db =
    any_row
      (λ _ r.
        r.seller_order_id == seller_order_id && (return_holds r.status || dispute_holds r.dispute))
      db.returns

-- `legacy_refund is not None`: a processed refund of the order with no accounting row.
unfoldable pub has_legacy_refund : ℕ → Db → Bool
has_legacy_refund order_id db =
    any_row
      (λ id r.
        r.order_id == order_id
        && (is_some r.processed_at && not (is_some (lookup id db.accountings))))
      db.refunds

-- The rows of the first query, in the order of settlement as the table lists them; `locked` tells which
-- rows another transaction holds (`skip_locked`).
unfoldable pub mature : ℕ → (ℕ → Bool) → Db → List LedgerRow
mature now locked db =
    select
      (λ row.
        not (is_some row.1.released_at)
        && (leb (row.1.settled_at + db.settings.wallet_hold) now && not (locked row.0)))
      db.ledgers

-- The three tests that make the loop go on to the next row, before it reads the wallet.
unfoldable pub is_held : ℕ → Db → Bool
is_held seller_order_id db = elim (lookup seller_order_id db.seller_orders) [
  | none ↦ true
  | some so ↦
      not (is_delivered so.status)
      || (has_active_hold seller_order_id db || has_legacy_refund so.order_id db)
]

abbrev pub move_to_available : ℕ → SellerWallet → SellerWallet
move_to_available amount wallet = record wallet {
  pending_balance = wallet.pending_balance - amount;
  available_balance = wallet.available_balance + amount;
}

abbrev pub release_transaction : ℕ → CommissionLedger → SellerWallet → WalletTransaction
release_transaction id ledger wallet = record {
  seller_id = ledger.seller_id;
  type = WalletTxType.credit_adjustment;
  amount = net_seller_amount ledger;
  balance_after =
      wallet.pending_balance
      - net_seller_amount ledger
      + (wallet.available_balance + net_seller_amount ledger);
  reference = Reference.ledger_ref id;
  seller_order_id = some ledger.seller_order_id;
  payout_id = none;
}

-- The writes for one row, once the wallet is known to cover the amount.
abbrev pub released : ℕ → ℕ → CommissionLedger → SellerWallet → Db → Db
released now id ledger wallet db =
    let marked = record db {
      ledgers = insert id (record ledger { released_at = some now }) db.ledgers;
    } in
    if ltb 0 (net_seller_amount ledger)
    then record marked {
      wallets = modify ledger.seller_id (move_to_available (net_seller_amount ledger)) db.wallets;
      transactions = release_transaction id ledger wallet ∷ db.transactions;
    }
    else marked

-- The body of the loop, with the number of ledgers that it released, 0 or 1.
unfoldable pub release_one : ℕ → ℕ → CommissionLedger → Tx ℕ
release_one now id ledger db =
    if is_held id db then ok 0 db else elim (lookup ledger.seller_id db.wallets) [
      | none ↦ ok 0 db
      | some wallet ↦
          if ltb wallet.pending_balance (net_seller_amount ledger)
          then ok 0 db
          else ok 1 (released now id ledger wallet db)
    ]

unfoldable pub release_rows : ℕ → List LedgerRow → Tx ℕ
release_rows now [] = pure 0
release_rows now ((id, ledger) ∷ rows) = do
  n ← release_one now id ledger
  m ← release_rows now rows
  pure (n + m)

unfoldable pub release_mature : ℕ → (ℕ → Bool) → Tx ℕ
release_mature now locked db = release_rows now (mature now locked db) db
