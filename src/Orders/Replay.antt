-- ===== src/Orders/Replay.antt =====
-- Idempotent checkout (services/checkout_safety.py, `create_checkout` and `recover_checkout` of
-- services/order_service.py): a checkout key makes one order, and is answered with it ever after.
pub mod Once
use drip_marketplace.Prelude.{
  ℕ, ◌+◌, Bool, true, false, not, ◌&&◌, Option, none, some, List, [], ◌∷◌, length, ltb, ◌==◌,
  is_some, if◌then◌else◌,
}
use drip_marketplace.Db.{
  Tx, ok, pure, raise_if, gets, or_raise, ◌>>=◌, ◌>>◌, Db, Order, PaymentMethod, not_found_checkout,
  checkout_in_progress, checkout_recovery_expired, checkout_key_reused, quote_invalid,
  account_cannot_order, empty_cart, guest_details_required,
}
use drip_marketplace.Checkout.{Entry, Calculation}
use drip_marketplace.Orders.Place.{CheckoutRequest, CheckoutGuard, build_order, create_guest_order}

abbrev pub OrderRow : Type 0
OrderRow = ℕ × Order

abbrev pub same_id : Option ℕ → Option ℕ → Bool
same_id none none = true
same_id (some a) (some b) = a == b
same_id _ _ = false

-- The order with the key's hash, which is unique.
unfoldable pub find_by_key : ℕ → List OrderRow → Option OrderRow
find_by_key hashed [] = none
find_by_key hashed (row ∷ rows) =
    if same_id row.1.checkout_key_hash (some hashed) then some row else find_by_key hashed rows

-- `GUEST_RECOVERY_TTL`, a day.
abbrev pub guest_recovery_ttl : ℕ
guest_recovery_ttl = 86400

-- A guest may recover an order for a day.
abbrev pub is_stale : ℕ → Option ℕ → Order → Bool
is_stale now user_id order =
    not (is_some user_id) && ltb (order.created_at + guest_recovery_ttl) now

abbrev pub check_found : ℕ → Option ℕ → Option OrderRow → Tx (Option OrderRow)
check_found now user_id none = pure none
check_found now user_id (some row) = do
  raise_if (not (same_id row.1.user_id user_id)) not_found_checkout
  raise_if (is_stale now user_id row.1) checkout_recovery_expired
  pure (some row)

-- `find_order` with its lock; `acquired` is PostgreSQL's answer to the advisory lock.
unfoldable pub find_order : ℕ → Bool → ℕ → Option ℕ → Tx (Option OrderRow)
find_order now acquired hashed user_id = do
  raise_if (not acquired) checkout_in_progress
  found ← gets (λ db. find_by_key hashed db.orders)
  check_found now user_id found

-- One call of the checkout. `key_hash` and `request_hash` are the two SHA-256 digests; `quote` tells which
-- prices the signed quote accepts, and is none when `verify_quote` refuses the token; `items` are the
-- guest's, or those of the account's cart in Redis; `account_open` tells whether the account exists, and
-- `guest_details` whether the payload is a guest's.
pub record CheckoutCall : Type 0 where
  pub request : CheckoutRequest
  pub key_hash : ℕ
  pub request_hash : ℕ
  pub quote : Option (Calculation → ℕ → Option ℕ → PaymentMethod → Bool)
  pub items : List Entry
  pub account_open : Bool
  pub guest_details : Bool

-- `create_order`
abbrev pub create_order : ℕ → CheckoutCall → CheckoutGuard → Tx ℕ
create_order now call guard = do
  raise_if (not call.account_open) account_cannot_order
  raise_if (length call.items == 0) empty_cart
  build_order now call.request (some guard) call.items

abbrev pub create_new : ℕ → CheckoutCall → CheckoutGuard → Tx ℕ
create_new now call guard =
    if is_some call.request.user_id
    then create_order now call guard
    else (raise_if (not call.guest_details) guest_details_required
        >> create_guest_order now call.request (some guard) call.items)

abbrev pub guard_for :
    CheckoutCall → (Calculation → ℕ → Option ℕ → PaymentMethod → Bool) → CheckoutGuard
guard_for call accepts = record {
  key_hash = call.key_hash;
  request_hash = call.request_hash;
  accepts = accepts;
}

-- The two outcomes of `begin_checkout`: the order that the key has made, or a new one.
abbrev pub replay_or_create : ℕ → CheckoutCall → Option OrderRow → Tx ℕ
replay_or_create now call (some row) = do
  raise_if (not (same_id row.1.checkout_request_hash (some call.request_hash))) checkout_key_reused
  pure row.0
replay_or_create now call none = do
  accepts ← or_raise call.quote quote_invalid
  create_new now call (guard_for call accepts)

-- The answer is the order's identifier.
unfoldable pub create_checkout : ℕ → Bool → CheckoutCall → Tx ℕ
create_checkout now acquired call = do
  previous ← find_order now acquired call.key_hash call.request.user_id
  replay_or_create now call previous

unfoldable pub recover_checkout : ℕ → Bool → ℕ → Option ℕ → Tx ℕ
recover_checkout now acquired hashed user_id = do
  previous ← find_order now acquired hashed user_id
  row ← or_raise previous not_found_checkout
  pure row.0
