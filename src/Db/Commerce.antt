-- ===== src/Db/Commerce.antt =====
-- Rows of the order, coupon, catalogue and seller tables (models/order.py, models/coupon.py,
-- models/product.py, models/seller.py, models/return_.py), with amounts in paisa and times in seconds.
-- Addresses, names, images and other text for display are left out.
use drip_marketplace.Prelude.{ℕ, ◌-◌, Bool, Option, List}
use drip_marketplace.Db.Finance.{Text}

pub data OrderStatus : Type 0 where
  pending_payment payment_confirmed pending_cod_verification : OrderStatus
  processing shipped delivered completed cancelled refunded : OrderStatus

pub data SellerOrderStatus : Type 0 where
  pending processing shipped delivered cancelled returned : SellerOrderStatus

-- `StoredPaymentMethod`; a new checkout offers `cod` and `payfast` only (`PaymentMethod`).
pub data PaymentMethod : Type 0 where
  jazzcash easypaisa card cod payfast : PaymentMethod

pub data SellerStatus : Type 0 where
  pending_payment pending_approval active suspended rejected : SellerStatus

pub data ReturnStatus : Type 0 where
  requested approved rejected received refunded : ReturnStatus

pub data DisputeStatus : Type 0 where
  open_dispute under_review resolved_customer resolved_seller closed : DisputeStatus

pub data DiscountType : Type 0 where
  percentage fixed : DiscountType

-- `order_items`
pub record OrderItem : Type 0 where
  pub seller_id : ℕ
  pub variant_id : ℕ
  pub unit_price : ℕ
  pub quantity : ℕ
  pub subtotal : ℕ

-- `orders`, each with its items.
pub record Order : Type 0 where
  pub user_id : Option ℕ
  pub status : OrderStatus
  pub subtotal : ℕ
  pub discount_amount : ℕ
  pub shipping_fee : ℕ
  pub total : ℕ
  pub payment_method : PaymentMethod
  pub coupon_id : Option ℕ
  pub checkout_key_hash : Option ℕ
  pub checkout_request_hash : Option ℕ
  pub created_at : ℕ
  pub items : List OrderItem

-- `seller_orders`
pub record SellerOrder : Type 0 where
  pub order_id : ℕ
  pub seller_id : ℕ
  pub status : SellerOrderStatus
  pub subtotal : ℕ
  pub shipped_at : Option ℕ
  pub delivered_at : Option ℕ

-- `product_inventory`. CHECK constraints keep 0 ≤ reserved ≤ stock and the reorder point in range.
pub record ProductInventory : Type 0 where
  pub stock : ℕ
  pub reserved : ℕ
  pub reorder_point : ℕ

-- `ProductInventory.available_stock`; exact under the CHECK reserved ≤ stock.
abbrev pub available_stock : ProductInventory → ℕ
available_stock inv = inv.stock - inv.reserved

-- `product_variants` joined with the product and the seller that it belongs to.
pub record Variant : Type 0 where
  pub product_id : ℕ
  pub seller_id : ℕ
  pub price_override : Option ℕ
  pub sale_price : Option ℕ
  pub price : ℕ
  pub is_active : Bool
  pub is_published : Bool
  pub admin_hidden : Bool
  pub product_deleted : Bool
  pub seller_status : SellerStatus

-- `coupons`. The value is hundredths: of a percent, or of a rupee.
pub record Coupon : Type 0 where
  pub code : ℕ
  pub discount_type : DiscountType
  pub discount_value : ℕ
  pub min_order_amount : ℕ
  pub max_uses : Option ℕ
  pub max_uses_per_customer : ℕ
  pub uses_count : ℕ
  pub valid_from : Option ℕ
  pub valid_until : Option ℕ
  pub is_active : Bool

-- `coupon_usages`
pub record CouponUsage : Type 0 where
  pub coupon_id : ℕ
  pub user_id : ℕ
  pub order_id : ℕ

-- The identifier of a row of `order_items`: its order, and its position there.
abbrev pub ItemId : Type 0
ItemId = ℕ × ℕ

-- `return_items`
pub record ReturnItem : Type 0 where
  pub item : ItemId
  pub quantity : ℕ

-- `dispute_messages`
pub record DisputeMessage : Type 0 where
  pub sender_id : ℕ
  pub body : Text

-- `disputes`
pub record Dispute : Type 0 where
  pub status : DisputeStatus
  pub messages : List DisputeMessage
  pub resolution_note : Option Text
  pub resolved_by : Option ℕ

-- `returns`, each with its items and with its dispute, which has the return's number.
pub record Return : Type 0 where
  pub order_id : ℕ
  pub seller_order_id : ℕ
  pub user_id : Option ℕ
  pub status : ReturnStatus
  pub notes : Option Text
  pub resolved_at : Option ℕ
  pub items : List ReturnItem
  pub dispute : Option Dispute

-- `sellers`
pub record Seller : Type 0 where
  pub user_id : ℕ
  pub status : SellerStatus
  pub total_slots : ℕ
  pub slots_used : ℕ

-- `order_status_history`, of orders and of seller orders.
pub data StatusChange : Type 0 where
  order_change : ℕ → Option OrderStatus → OrderStatus → StatusChange
  seller_order_change : ℕ → SellerOrderStatus → SellerOrderStatus → StatusChange
