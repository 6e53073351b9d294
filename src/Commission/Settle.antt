-- ===== src/Commission/Settle.antt =====
-- `settle`: the ledger entry of a delivered and paid seller order, and the credit to its seller.
pub mod Loop
pub mod Shares
pub mod Charging
pub mod Entry
pub mod Once
pub mod Every
use drip_marketplace.Prelude.{
  ℕ, ◌+◌, ◌-◌, Bool, true, false, not, ◌&&◌, Option, none, some, List, [], ◌∷◌, map, all, sum_of,
  select, ltb, ◌==◌, is_some, if◌then◌else◌,
}
use drip_marketplace.Prelude.Int.{pos, ◌+ℤ◌}
use drip_marketplace.Db.{
  Tx, ok, pure, gets, modify_db, raise_if, or_raise, ◌>>=◌, ◌>>◌, Db, SellerWallet,
  CommissionLedger, RefundAccounting, RefundAllocation, WalletTransaction, WalletTxType, Reference,
  Payment, PaymentStatus, SellerOrder, SellerOrderStatus, lookup, insert, modify,
  net_commission_amount, net_seller_amount, is_completed, not_found_seller_order, not_found_wallet,
  only_delivered_settled, funds_not_collected,
}
use drip_marketplace.Commission.Ledger.{commission_on, apply_allocation}

abbrev pub is_delivered : SellerOrderStatus → Bool
is_delivered SellerOrderStatus.delivered = true
is_delivered _ = false

-- `payment and payment.status == PaymentStatus.completed`
abbrev pub is_collected : Option Payment → Bool
is_collected none = false
is_collected (some payment) = is_completed payment.status

abbrev pub AllocationRow : Type 0
AllocationRow = ℕ × RefundAllocation

-- The loop over the selected allocations. The table lists its rows in the order of their keys.
unfoldable pub apply_all : ℕ → Bool → List AllocationRow → Tx (Unit {0})
apply_all now settlement_offset [] = pure tt
apply_all now settlement_offset ((id, allocation) ∷ rows) = do
  apply_allocation now settlement_offset id allocation
  apply_all now settlement_offset rows

abbrev pub pending_for_order : ℕ → Db → List AllocationRow
pending_for_order seller_order_id db =
    select (λ row. row.1.seller_order_id == seller_order_id && not (is_some row.1.applied_at))
      db.allocations

abbrev pub of_refund : ℕ → Db → List AllocationRow
of_refund refund_id db = select (λ row. row.1.refund_id == refund_id) db.allocations

-- `_refresh_refund_accounting`: the totals of a refund from its allocations.
abbrev pub refreshed : ℕ → List AllocationRow → RefundAccounting → RefundAccounting
refreshed now rows accounting =
    let commission = sum_of (λ (row : AllocationRow). row.1.commission_reversal_amount) rows in
    let shortfall = sum_of (λ (row : AllocationRow). row.1.platform_shortfall_amount) rows in
    record accounting {
      commission_reversal_amount = commission;
      seller_reversal_amount = sum_of (λ (row : AllocationRow). row.1.seller_reversal_amount) rows;
      recovered_amount = sum_of (λ (row : AllocationRow). row.1.recovered_amount) rows;
      settlement_offset_amount =
          sum_of (λ (row : AllocationRow). row.1.settlement_offset_amount) rows;
      platform_shortfall_amount = shortfall;
      platform_funded_amount = accounting.shipping_amount + commission + shortfall;
      reconciled_at =
          if all (λ (row : AllocationRow). is_some row.1.applied_at) rows then some now else none;
    }

abbrev pub after_refresh : ℕ → ℕ → Db → Db
after_refresh now refund_id db = record db {
  accountings = modify refund_id (refreshed now (of_refund refund_id db)) db.accountings;
}

unfoldable pub refresh_refund_accounting : ℕ → ℕ → Tx (Unit {0})
refresh_refund_accounting now refund_id db = ok tt (after_refresh now refund_id db)

unfoldable pub refresh_all : ℕ → List ℕ → Tx (Unit {0})
refresh_all now [] = pure tt
refresh_all now (refund_id ∷ refund_ids) = do
  refresh_refund_accounting now refund_id
  refresh_all now refund_ids

abbrev pub new_ledger : ℕ → ℕ → SellerOrder → ℕ → CommissionLedger
new_ledger now seller_order_id so rate = record {
  seller_order_id = seller_order_id;
  seller_id = so.seller_id;
  gross_amount = so.subtotal;
  commission_rate = rate;
  commission_amount = commission_on so.subtotal rate;
  seller_amount = so.subtotal - commission_on so.subtotal rate;
  refunded_gross_amount = 0;
  reversed_commission_amount = 0;
  reversed_seller_amount = 0;
  recovered_seller_amount = 0;
  settlement_offset_amount = 0;
  platform_shortfall_amount = 0;
  released_at = none;
  settled_at = now;
}

-- `credit_pending` and `charge_commission` of the wallet repository.
abbrev pub credited : ℕ → ℕ → SellerWallet → SellerWallet
credited seller commission wallet = record wallet {
  pending_balance = wallet.pending_balance + seller;
  total_earned = wallet.total_earned +ℤ pos seller;
  total_commission = wallet.total_commission +ℤ pos commission;
}

abbrev pub settlement_transaction : ℕ → CommissionLedger → SellerWallet → WalletTransaction
settlement_transaction seller_order_id ledger wallet = record {
  seller_id = ledger.seller_id;
  type = WalletTxType.credit_commission;
  amount = net_seller_amount ledger;
  balance_after = wallet.pending_balance + net_seller_amount ledger;
  reference = Reference.seller_order_ref seller_order_id;
  seller_order_id = some seller_order_id;
  payout_id = none;
}

abbrev pub credit_wallet : ℕ → CommissionLedger → SellerWallet → Tx (Unit {0})
credit_wallet seller_order_id ledger wallet db = ok tt (record db {
  wallets =
      modify ledger.seller_id (credited (net_seller_amount ledger) (net_commission_amount ledger))
        db.wallets;
  transactions = settlement_transaction seller_order_id ledger wallet ∷ db.transactions;
})

-- The credit, if anything is left for the seller. The ledger's row is there: it has just been written.
unfoldable pub credit_settlement : ℕ → Tx (Unit {0})
credit_settlement seller_order_id db = elim (lookup seller_order_id db.ledgers) [
  | none ↦ ok tt db
  | some ledger ↦
      let credit = (do
        wallet ← or_raise (lookup ledger.seller_id db.wallets) not_found_wallet
        credit_wallet seller_order_id ledger wallet) in
      if ltb 0 (net_seller_amount ledger) then credit db else ok tt db
]

unfoldable pub settle_new : ℕ → ℕ → SellerOrder → Tx (Unit {0})
settle_new now seller_order_id so = do
  raise_if (not (is_delivered so.status)) only_delivered_settled
  paid ← gets (λ db. is_collected (lookup so.order_id db.payments))
  raise_if (not paid) funds_not_collected
  modify_db (λ db. record db {
    ledgers =
        insert seller_order_id (new_ledger now seller_order_id so db.settings.commission_rate)
          db.ledgers;
  })
  rows ← gets (pending_for_order seller_order_id)
  apply_all now true rows
  credit_settlement seller_order_id
  refresh_all now (map (λ row. row.1.refund_id) rows)

unfoldable pub settle : ℕ → ℕ → Tx (Unit {0})
settle now seller_order_id = do
  row ← gets (λ db. lookup seller_order_id db.seller_orders)
  so ← or_raise row not_found_seller_order
  settled ← gets (λ db. is_some (lookup seller_order_id db.ledgers))
  if settled then pure tt else settle_new now seller_order_id so
