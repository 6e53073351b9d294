-- ===== src/Commission/Ledger.antt =====
-- The ledger of a settled seller order, and `_apply_allocation`, which charges a refund's share to it.
pub mod Reversal
pub mod Charged
use drip_marketplace.Prelude.{
  ℕ, ◌+◌, ◌-◌, ◌*◌, Bool, true, false, Option, none, some, List, [], ◌∷◌, min, ltb, if◌then◌else◌,
  is_some,
}
use drip_marketplace.Prelude.Int.{pos, ◌-ℤ◌}
use drip_marketplace.Money.{div_half_up}
use drip_marketplace.Db.{
  Tx, ok, err, pure, raise_if, gets, modify_db, ◌>>=◌, ◌>>◌, Db, SellerWallet, CommissionLedger,
  RefundAllocation, Reference, net_gross_amount, net_commission_amount, net_seller_amount, lookup,
  modify, insert, Refund, allocation_exceeds_gross, allocation_exceeds_commission,
}
use drip_marketplace.Commission.Debit.{apply_debit}

-- One whole, in ten-thousandths.
abbrev pub rate_scale : ℕ
rate_scale = 10000

-- `_money(amount * rate)`, in paisa.
unfoldable pub commission_on : ℕ → ℕ → ℕ
commission_on amount rate = div_half_up (amount * rate) rate_scale

-- `commission_reversal` and `seller_reversal` for a share of a refund. The rate is at most one, so
-- that the commission on a share is at most the share and the differences are those of Python.
unfoldable pub reversal_split : ℕ → CommissionLedger → ℕ × ℕ
reversal_split merchandise ledger =
    let commission =
      min (commission_on merchandise ledger.commission_rate) (net_commission_amount ledger) in
    if ltb (net_seller_amount ledger) (merchandise - commission)
    then (merchandise - net_seller_amount ledger, net_seller_amount ledger)
    else (commission, merchandise - commission)

-- What one share of a refund comes to: the two reversals, and how the seller's part is met.
pub record Charge : Type 0 where
  pub merchandise : ℕ
  pub commission_reversal : ℕ
  pub seller_reversal : ℕ
  pub recovered : ℕ
  pub offset : ℕ
  pub shortfall : ℕ

abbrev pub charge_ledger : Charge → CommissionLedger → CommissionLedger
charge_ledger c ledger = record ledger {
  refunded_gross_amount = ledger.refunded_gross_amount + c.merchandise;
  reversed_commission_amount = ledger.reversed_commission_amount + c.commission_reversal;
  reversed_seller_amount = ledger.reversed_seller_amount + c.seller_reversal;
  recovered_seller_amount = ledger.recovered_seller_amount + c.recovered;
  settlement_offset_amount = ledger.settlement_offset_amount + c.offset;
  platform_shortfall_amount = ledger.platform_shortfall_amount + c.shortfall;
}

abbrev pub charge_allocation : ℕ → ℕ → Charge → RefundAllocation → RefundAllocation
charge_allocation now rate c allocation = record allocation {
  commission_rate = some rate;
  commission_reversal_amount = c.commission_reversal;
  seller_reversal_amount = c.seller_reversal;
  recovered_amount = c.recovered;
  settlement_offset_amount = c.offset;
  platform_shortfall_amount = c.shortfall;
  applied_at = some now;
}

-- The transaction's reference: the refund alone when it belongs to a return, and the refund with the
-- seller order when it does not.
abbrev pub refund_reference : Option Refund → ℕ → ℕ → Reference
refund_reference none refund_id so = Reference.order_refund refund_id so
refund_reference (some refund) refund_id so =
    if is_some refund.return_id
    then Reference.return_refund refund_id
    else Reference.order_refund refund_id so

abbrev pub lower_totals : ℕ → ℕ → SellerWallet → SellerWallet
lower_totals seller commission wallet = record wallet {
  total_earned = wallet.total_earned -ℤ pos seller;
  total_commission = wallet.total_commission -ℤ pos commission;
}

abbrev pub store_charge : ℕ → ℕ → RefundAllocation → CommissionLedger → Charge → Db → Db
store_charge now id allocation ledger c db = record db {
  ledgers = insert allocation.seller_order_id (charge_ledger c ledger) db.ledgers;
  allocations =
      insert id (charge_allocation now ledger.commission_rate c allocation) db.allocations;
}

-- The branch of `_apply_allocation` before settlement: the share is an offset, no wallet is touched.
abbrev pub offset_charge : ℕ → ℕ × ℕ → Charge
offset_charge merchandise parts = record {
  merchandise = merchandise;
  commission_reversal = parts.0;
  seller_reversal = parts.1;
  recovered = 0;
  offset = parts.1;
  shortfall = 0;
}

-- The branch after settlement: what the wallet does not yield is the platform's shortfall.
abbrev pub debit_charge : ℕ → ℕ × ℕ → ℕ → Charge
debit_charge merchandise parts recovered = record {
  merchandise = merchandise;
  commission_reversal = parts.0;
  seller_reversal = parts.1;
  recovered = recovered;
  offset = 0;
  shortfall = parts.1 - recovered;
}

unfoldable pub charge : ℕ → Bool → ℕ → RefundAllocation → CommissionLedger → ℕ × ℕ → Tx Bool
charge now true id allocation ledger parts = do
  modify_db
      (store_charge now id allocation ledger (offset_charge allocation.merchandise_amount parts))
  pure true
charge now false id allocation ledger parts = do
  refund ← gets (λ db. lookup allocation.refund_id db.refunds)
  recovered ←
      apply_debit ledger.seller_id parts.1
        (refund_reference refund allocation.refund_id allocation.seller_order_id)
        allocation.seller_order_id (is_some ledger.released_at)
  modify_db (λ db. record db {
    wallets = modify ledger.seller_id (lower_totals parts.1 parts.0) db.wallets;
  })
  modify_db (
      store_charge now id allocation ledger
        (debit_charge allocation.merchandise_amount parts recovered))
  pure true

abbrev pub charge_checked : ℕ → Bool → ℕ → RefundAllocation → CommissionLedger → Tx Bool
charge_checked now settlement_offset id allocation ledger = do
  raise_if (ltb (net_gross_amount ledger) allocation.merchandise_amount) allocation_exceeds_gross
  raise_if
      (ltb (net_commission_amount ledger) (reversal_split allocation.merchandise_amount ledger).0)
      allocation_exceeds_commission
  charge now settlement_offset id allocation ledger
      (reversal_split allocation.merchandise_amount ledger)

-- `_apply_allocation` for the row `allocation` with key `id`. `settle` passes the ledger row that it
-- has just written, the other caller passes none; it is the same row that the lookup finds.
unfoldable pub apply_allocation : ℕ → Bool → ℕ → RefundAllocation → Tx Bool
apply_allocation now settlement_offset id allocation db =
    if is_some allocation.applied_at
    then ok true db
    else elim (lookup allocation.seller_order_id db.ledgers) [
      | none ↦ ok false db
      | some ledger ↦ charge_checked now settlement_offset id allocation ledger db
    ]
