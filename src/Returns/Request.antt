-- ===== src/Returns/Request.antt =====
-- Requests for returns (`request_return`, `request_guest_return`, `_create_return` and
-- `_validate_return_quantities` of services/return_service.py). The texts of a request are left out.
use drip_marketplace.Prelude.{
  ℕ, zero, suc, ◌+◌, Bool, true, false, not, ◌&&◌, ◌||◌, Option, none, some, List, [], ◌∷◌, sum_of,
  sort_by, ltb, leb, ◌==◌, is_some, if◌then◌else◌,
}
use drip_marketplace.Db.{
  Tx, pure, raise_if, gets, modify_db, or_raise, ◌>>=◌, ◌>>◌, Db, Text, Order, OrderItem,
  OrderStatus, SellerOrder, Return, ReturnItem, ReturnStatus, ItemId, lookup, insert,
  not_found_user, not_found_seller_order, not_your_order, not_returnable, repeated_item,
  not_in_seller_order, exceeds_purchased, sign_in_required,
}
use drip_marketplace.Orders.{allowed_order, is_owner, token_matches}
use drip_marketplace.Returns.{ReturnRow, has_status}

abbrev pub same_item : ItemId → ItemId → Bool
same_item a b = a.0 == b.0 && a.1 == b.1

abbrev pub item_at : List OrderItem → ℕ → Option OrderItem
item_at [] n = none
item_at (item ∷ items) zero = some item
item_at (item ∷ items) (suc n) = item_at items n

abbrev pub item_of : ItemId → Option Order → Option OrderItem
item_of id none = none
item_of id (some order) = item_at order.items id.1

unfoldable pub find_item : ItemId → Db → Option OrderItem
find_item id db = item_of id (lookup id.0 db.orders)

abbrev pub if_sold_in : ℕ → ℕ → ItemId → Option OrderItem → Option OrderItem
if_sold_in order_id seller_id id none = none
if_sold_in order_id seller_id id (some item) =
    if id.0 == order_id && item.seller_id == seller_id then some item else none

-- The item, when it is of this order and seller.
abbrev pub seller_item : ℕ → ℕ → ItemId → Db → Option OrderItem
seller_item order_id seller_id id db = if_sold_in order_id seller_id id (find_item id db)

abbrev pub quantity_for : ItemId → List ReturnItem → ℕ
quantity_for id items =
    sum_of (λ (i : ReturnItem). if same_item i.item id then i.quantity else 0) items

-- A rejected return claims nothing.
abbrev pub claim_of : ItemId → Return → ℕ
claim_of id r = if has_status ReturnStatus.rejected r then 0 else quantity_for id r.items

abbrev pub is_excluded : Option ℕ → ℕ → Bool
is_excluded none id = false
is_excluded (some excluded) id = id == excluded

-- `already_claimed`
unfoldable pub claimed : ItemId → Option ℕ → List ReturnRow → ℕ
claimed id exclude [] = 0
claimed id exclude (row ∷ rows) =
    (if is_excluded exclude row.0 then 0 else claim_of id row.1) + claimed id exclude rows

unfoldable pub validate_items : ℕ → ℕ → Option ℕ → List ReturnItem → Tx (Unit {0})
validate_items order_id seller_id exclude [] = pure tt
validate_items order_id seller_id exclude (requested ∷ rest) = do
  found ← gets (seller_item order_id seller_id requested.item)
  item ← or_raise found not_in_seller_order
  already ← gets (λ db. claimed requested.item exclude db.returns)
  raise_if (ltb item.quantity (requested.quantity + already)) exceeds_purchased
  validate_items order_id seller_id exclude rest

abbrev pub by_item : ReturnItem → ReturnItem → Bool
by_item a b = ltb a.item.0 b.item.0 || (a.item.0 == b.item.0 && leb a.item.1 b.item.1)

-- `_validate_return_quantities`
unfoldable pub validate_return_quantities : ℕ → ℕ → Option ℕ → List ReturnItem → Tx (Unit {0})
validate_return_quantities order_id seller_id exclude items =
    validate_items order_id seller_id exclude (sort_by by_item items)

-- Some item occurs twice.
unfoldable pub has_repeated_item : List ReturnItem → Bool
has_repeated_item [] = false
has_repeated_item (i ∷ items) =
    ltb 0 (sum_of (λ (j : ReturnItem). if same_item j.item i.item then 1 else 0) items)
    || has_repeated_item items

-- `RETURNABLE_STATUSES`
abbrev pub is_returnable : OrderStatus → Bool
is_returnable OrderStatus.delivered = true
is_returnable OrderStatus.completed = true
is_returnable _ = false

pub record ReturnRequest : Type 0 where
  pub seller_order_id : ℕ
  pub items : List ReturnItem
  pub notes : Option Text

abbrev pub new_return : ℕ → Option ℕ → ReturnRequest → Return
new_return order_id user_id request = record {
  order_id = order_id;
  seller_order_id = request.seller_order_id;
  user_id = user_id;
  status = ReturnStatus.requested;
  notes = request.notes;
  resolved_at = none;
  items = request.items;
  dispute = none;
}

abbrev pub store_return : Return → Db → Db
store_return r db = record db { returns = insert db.next_id r db.returns; next_id = db.next_id + 1 }

-- `_create_return`; the answer is the return's identifier.
unfoldable pub create_return : Order → SellerOrder → Option ℕ → ReturnRequest → Tx ℕ
create_return order so user_id request = do
  raise_if (not (is_returnable order.status)) not_returnable
  raise_if (has_repeated_item request.items) repeated_item
  validate_return_quantities so.order_id so.seller_id none request.items
  number ← gets (λ db. db.next_id)
  modify_db (store_return (new_return so.order_id user_id request))
  pure number

abbrev pub owned_order : ℕ → Option Order → Option Order
owned_order user_id none = none
owned_order user_id (some order) =
    if is_owner order.user_id (some user_id) then some order else none

-- `account_open` tells whether the account is there and not deleted.
unfoldable pub request_return : Bool → ℕ → ReturnRequest → Tx ℕ
request_return account_open user_id request = do
  raise_if (not account_open) not_found_user
  row ← gets (λ db. lookup request.seller_order_id db.seller_orders)
  so ← or_raise row not_found_seller_order
  order_row ← gets (λ db. owned_order user_id (lookup so.order_id db.orders))
  order ← or_raise order_row not_your_order
  create_return order so (some user_id) request

-- `authorized_order` raises what the seller order's absence does; the token is there.
unfoldable pub request_guest_return : Option Bool → ReturnRequest → Tx ℕ
request_guest_return guest_token request = do
  raise_if (not (is_some guest_token)) sign_in_required
  row ← gets (λ db. lookup request.seller_order_id db.seller_orders)
  so ← or_raise row not_found_seller_order
  order_row ←
      gets (λ db. allowed_order none (token_matches guest_token) (lookup so.order_id db.orders))
  order ← or_raise order_row not_found_seller_order
  create_return order so none request
