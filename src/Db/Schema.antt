-- ===== src/Db/Schema.antt =====
-- The whole database, the runtime settings, and the notification outbox.
use drip_marketplace.Prelude.{ℕ, List, Bool}
use drip_marketplace.Db.Table.{Table}
use drip_marketplace.Db.Monad.{Action}
use drip_marketplace.Db.Finance.{
  SellerWallet, CommissionLedger, RefundAccounting, RefundAllocation, WalletTransaction, Payout,
  Payment, CollectionCallback, PaymentAttempt, GatewayPayload, GatewayAudit, Refund, PayoutStatus,
  SellerBankAccount,
}
use drip_marketplace.Db.Commerce.{
  Order, OrderStatus, SellerOrder, ProductInventory, Variant, Coupon, CouponUsage, Return, Seller,
  StatusChange,
}

-- The runtime settings (services/platform_settings.py) and those of core/config.py that the services
-- read. Amounts are paisa, the rate is ten-thousandths, times are seconds.
pub record Settings : Type 0 where
  pub commission_rate : ℕ
  pub wallet_hold : ℕ
  pub free_shipping_threshold : ℕ
  pub standard_shipping_fee : ℕ
  pub cod_timeout : ℕ
  pub payment_timeout : ℕ
  pub extra_slot_price : ℕ
  pub min_withdrawal_amount : ℕ
  pub max_withdrawal_amount : ℕ
  pub max_cod_order_amount : ℕ
  pub payfast_enabled : Bool

-- The event keys of `queue_notification`.
pub data Event : Type 0 where
  order_placed : ℕ → Event
  order_status : ℕ → OrderStatus → Event
  payout_status : ℕ → PayoutStatus → Event

pub record Db : Type 0 where
  pub wallets : Table SellerWallet  -- by seller
  pub ledgers : Table CommissionLedger  -- by seller order
  pub accountings : Table RefundAccounting  -- by refund
  pub allocations : Table RefundAllocation  -- by id
  pub transactions : List WalletTransaction
  pub payouts : Table Payout
  pub bank_accounts : Table SellerBankAccount
  pub payments : Table Payment  -- by order
  pub refunds : Table Refund
  pub callbacks : List CollectionCallback
  pub attempts : Table PaymentAttempt
  pub payloads : Table GatewayPayload  -- by order
  pub audits : List GatewayAudit
  pub returns : Table Return
  pub orders : Table Order
  pub seller_orders : Table SellerOrder
  pub inventory : Table ProductInventory  -- by variant
  pub variants : Table Variant
  pub coupons : Table Coupon
  pub coupon_usages : List CouponUsage
  pub sellers : Table Seller
  pub history : List StatusChange
  pub outbox : List Event
  pub settings : Settings
  pub next_id : ℕ

abbrev pub Tx : Type 0 → Type 0
Tx = Action Db
