-- ===== src/Tests.antt =====
-- Runs of the services on small databases, and the theorems applied to them.
mod Commission
mod Inventory
mod Wallet
mod Orders
mod Slots
mod Payments
mod Returns
mod Gateway
mod Pennies
use drip_marketplace.Prelude.{ℕ, Bool, none, some, [], ◌∷◌}
use drip_marketplace.Prelude.Int.{pos}
use drip_marketplace.Db.{
  Db, Settings, SellerWallet, CommissionLedger, RefundAccounting, RefundAllocation, Payment,
  PaymentStatus, Refund, Order, OrderStatus, PaymentMethod, SellerOrder, SellerOrderStatus,
  ProductInventory,
}

abbrev settings : Settings
settings = record {
  commission_rate = 1250;
  wallet_hold = 604800;
  free_shipping_threshold = 300000;
  standard_shipping_fee = 20000;
  cod_timeout = 86400;
  payment_timeout = 1800;
  extra_slot_price = 50000;
  min_withdrawal_amount = 50000;
  max_withdrawal_amount = 10000000;
  max_cod_order_amount = 1500000;
  payfast_enabled = Bool.true;
}

abbrev pub wallet : SellerWallet
wallet = record {
  available_balance = 30000;
  pending_balance = 0;
  total_earned = pos 30000;
  total_commission = pos 0;
}

-- A seller order of 1,000.01 rupees.
abbrev pub parcel : ℕ → SellerOrder
parcel seller = record {
  order_id = 1;
  seller_id = seller;
  status = SellerOrderStatus.delivered;
  subtotal = 100001;
  shipped_at = some 100;
  delivered_at = some 200;
}

abbrev pub order : Order
order = record {
  user_id = some 5;
  status = OrderStatus.delivered;
  subtotal = 200002;
  discount_amount = 0;
  shipping_fee = 20000;
  total = 220002;
  payment_method = PaymentMethod.payfast;
  coupon_id = none;
  checkout_key_hash = none;
  checkout_request_hash = none;
  created_at = 50;
  items = [];
}

abbrev pub shelf : ProductInventory
shelf = record { stock = 5; reserved = 1; reorder_point = 3 }

-- Sellers 7 and 8 have each delivered a part of order 1, which is paid, and nothing is settled.
abbrev pub shop : Db
shop = record {
  wallets = (7, wallet) ∷ (8, wallet) ∷ [];
  ledgers = [];
  accountings = [];
  allocations = [];
  transactions = [];
  payouts = [];
  bank_accounts =
      (
        3,
        record {
          seller_id = 7;
          bank_name = some (72 ∷ 66 ∷ 76 ∷ []);
          account_number = some (49 ∷ 50 ∷ []);
        },
      )
      ∷ [];
  payments =
      (
        1,
        record {
          status = PaymentStatus.completed;
          amount = 220002;
          currency = 80 ∷ 75 ∷ 82 ∷ [];
          method = 112 ∷ 102 ∷ [];
          gateway_reference = none;
          paid_at = some 60;
        },
      )
      ∷ [];
  refunds =
      (
        9,
        record {
          order_id = 1;
          return_id = none;
          amount = 150000;
          idempotency_key = none;
          reason = none;
          processed_at = some 300;
          gateway_ref = some [];
          processed_by = some 1;
        },
      )
      ∷ [];
  callbacks = [];
  attempts = [];
  payloads = [];
  audits = [];
  returns = [];
  orders = (1, order) ∷ [];
  seller_orders = (21, parcel 7) ∷ (22, parcel 8) ∷ [];
  inventory = (40, shelf) ∷ [];
  variants = [];
  coupons = [];
  coupon_usages = [];
  sellers = [];
  history = [];
  outbox = [];
  settings = settings;
  next_id = 60;
}

abbrev pub ledger : CommissionLedger
ledger = record {
  seller_order_id = 21;
  seller_id = 7;
  gross_amount = 100001;
  commission_rate = 1250;
  commission_amount = 12500;
  seller_amount = 87501;
  refunded_gross_amount = 0;
  reversed_commission_amount = 0;
  reversed_seller_amount = 0;
  recovered_seller_amount = 0;
  settlement_offset_amount = 0;
  platform_shortfall_amount = 0;
  released_at = none;
  settled_at = 1000;
}

-- The share of a refund of 500.00 rupees.
abbrev pub share : RefundAllocation
share = record {
  refund_id = 9;
  seller_order_id = 21;
  seller_id = 7;
  merchandise_amount = 50000;
  commission_rate = none;
  commission_reversal_amount = 0;
  seller_reversal_amount = 0;
  recovered_amount = 0;
  settlement_offset_amount = 0;
  platform_shortfall_amount = 0;
  applied_at = none;
}

abbrev pub accounting : RefundAccounting
accounting = record {
  merchandise_amount = 50000;
  shipping_amount = 0;
  commission_reversal_amount = 0;
  seller_reversal_amount = 0;
  recovered_amount = 0;
  settlement_offset_amount = 0;
  platform_shortfall_amount = 0;
  platform_funded_amount = 0;
  reconciled_at = none;
}

-- The part of seller 7 is settled, and a refund of half of it is written down.
abbrev pub sold : Db
sold = record shop {
  wallets = (7, record wallet { pending_balance = 87501 }) ∷ (8, wallet) ∷ [];
  ledgers = (21, ledger) ∷ [];
  accountings = (9, accounting) ∷ [];
  allocations = (50, share) ∷ [];
}
