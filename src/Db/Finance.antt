-- ===== src/Db/Finance.antt =====
-- Rows of the financial tables (models/wallet.py, models/seller.py, models/payment.py). Amounts are
-- whole paisa, rates are ten-thousandths (Numeric(5, 4)), times are numbers of seconds, and the
-- identifiers (UUIDs), which are only compared, are numbers. Columns with text for display are left out.
use drip_marketplace.Prelude.{ℕ, ◌-◌, Bool, true, false, Option, List}
use drip_marketplace.Prelude.Int.{ℤ}

-- A text as the list of its code points.
abbrev pub Text : Type 0
Text = List ℕ

pub data WalletTxType : Type 0 where
  credit_commission debit_commission credit_refund debit_withdrawal : WalletTxType
  credit_adjustment debit_adjustment : WalletTxType

pub data PayoutStatus : Type 0 where
  requested approved processing completed rejected : PayoutStatus

pub data PaymentStatus : Type 0 where
  pending processing completed failed refunded : PaymentStatus

-- `seller_wallets`. The two balances have a CHECK that keeps them at zero or more, the two running
-- totals have none.
pub record SellerWallet : Type 0 where
  pub available_balance : ℕ
  pub pending_balance : ℕ
  pub total_earned : ℤ
  pub total_commission : ℤ

-- `commission_ledger`, one row for each settled seller order.
pub record CommissionLedger : Type 0 where
  pub seller_order_id : ℕ
  pub seller_id : ℕ
  pub gross_amount : ℕ
  pub commission_rate : ℕ
  pub commission_amount : ℕ
  pub seller_amount : ℕ
  pub refunded_gross_amount : ℕ
  pub reversed_commission_amount : ℕ
  pub reversed_seller_amount : ℕ
  pub recovered_seller_amount : ℕ
  pub settlement_offset_amount : ℕ
  pub platform_shortfall_amount : ℕ
  pub released_at : Option ℕ
  pub settled_at : ℕ

-- The hybrid properties. The CHECK `ck_commission_refund_amounts_capped` holds of every stored row,
-- so the differences are exact.
abbrev pub net_gross_amount : CommissionLedger → ℕ
net_gross_amount l = l.gross_amount - l.refunded_gross_amount

abbrev pub net_commission_amount : CommissionLedger → ℕ
net_commission_amount l = l.commission_amount - l.reversed_commission_amount

abbrev pub net_seller_amount : CommissionLedger → ℕ
net_seller_amount l = l.seller_amount - l.reversed_seller_amount

-- `refund_accounting`, one row for each confirmed refund.
pub record RefundAccounting : Type 0 where
  pub merchandise_amount : ℕ
  pub shipping_amount : ℕ
  pub commission_reversal_amount : ℕ
  pub seller_reversal_amount : ℕ
  pub recovered_amount : ℕ
  pub settlement_offset_amount : ℕ
  pub platform_shortfall_amount : ℕ
  pub platform_funded_amount : ℕ
  pub reconciled_at : Option ℕ

-- `refund_allocations`, the share of one seller order in a refund.
pub record RefundAllocation : Type 0 where
  pub refund_id : ℕ
  pub seller_order_id : ℕ
  pub seller_id : ℕ
  pub merchandise_amount : ℕ
  pub commission_rate : Option ℕ
  pub commission_reversal_amount : ℕ
  pub seller_reversal_amount : ℕ
  pub recovered_amount : ℕ
  pub settlement_offset_amount : ℕ
  pub platform_shortfall_amount : ℕ
  pub applied_at : Option ℕ

-- `payouts`
pub record Payout : Type 0 where
  pub seller_id : ℕ
  pub amount : ℕ
  pub payment_method : Text
  pub payment_detail : Text
  pub status : PayoutStatus
  pub admin_note : Option Text
  pub transfer_reference : Option Text
  pub approved_by : Option ℕ
  pub completed_at : Option ℕ

-- The text in a wallet transaction's `reference`, told apart by what it is built from.
pub data Reference : Type 0 where
  seller_order_ref ledger_ref payout_ref slot_purchase : ℕ → Reference
  return_refund : ℕ → Reference
  order_refund : ℕ → ℕ → Reference

-- `wallet_transactions`
pub record WalletTransaction : Type 0 where
  pub seller_id : ℕ
  pub type : WalletTxType
  pub amount : ℕ
  pub balance_after : ℕ
  pub reference : Reference
  pub seller_order_id : Option ℕ
  pub payout_id : Option ℕ

-- `payments`. `order_id` is unique there, so that an order's number stands for its payment.
pub record Payment : Type 0 where
  pub status : PaymentStatus
  pub amount : ℕ
  pub currency : Text
  pub method : Text
  pub gateway_reference : Option Text
  pub paid_at : Option ℕ

-- `payment_callbacks`, of the gateway "cod_collection", whose payload holds these.
pub record CollectionCallback : Type 0 where
  pub payment_id : ℕ
  pub recorded_by : ℕ
  pub reference : Text
  pub amount : ℕ
  pub paid_at : ℕ

-- `refunds`, with the order of the payment that it belongs to.
pub record Refund : Type 0 where
  pub order_id : ℕ
  pub return_id : Option ℕ
  pub amount : ℕ
  pub idempotency_key : Option Text
  pub reason : Option Text
  pub processed_at : Option ℕ
  pub gateway_ref : Option Text
  pub processed_by : Option ℕ

-- The "state" of an online attempt.
pub data AttemptState : Type 0 where
  starting ready completed failed : AttemptState

-- `payment_callbacks`, of the gateway "payfast_attempt": an attempt to pay online, with what its payload says of
-- its state and of the gateway's transaction.
pub record PaymentAttempt : Type 0 where
  pub payment_id : ℕ
  pub state : AttemptState
  pub transaction_id : Option Text
  pub is_verified : Bool

-- `payments.gateway_payload`, for the payments where it is not empty. The last answers of the gateway, which
-- nothing reads, are left out, and so is the order's date, which only the gateway reads; an address that is not
-- there is empty.
pub record GatewayPayload : Type 0 where
  pub active_attempt : Option ℕ
  pub customer_ip : Text

-- `payment_callbacks`, of the gateways "payfast" and "payfast_reconciliation".
pub data GatewayAudit : Type 0 where
  notified : Option ℕ → Bool → GatewayAudit
  reconciled : ℕ → Bool → GatewayAudit

abbrev pub is_completed : PaymentStatus → Bool
is_completed PaymentStatus.completed = true
is_completed _ = false

-- `seller_bank_accounts`
pub record SellerBankAccount : Type 0 where
  pub seller_id : ℕ
  pub bank_name : Option Text
  pub account_number : Option Text
