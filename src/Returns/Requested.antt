-- ===== src/Returns/Requested.antt =====
-- A request for a return claims no more of an item than is left of it.
use drip_marketplace.Prelude.{
  ℕ, ◌≡◌, refl, ap, inl, inr, Bool, false, not, Option, none, some, arith, ◌==◌, is_some,
  Bool-cases, All,
}
use drip_marketplace.Db.{
  Db, Order, SellerOrder, Return, Ends, Ends-then, Ends-guard, Ends-require, lookup, insert,
  lookup-insert, lookup-insert_self, Holds-insert, Below-insert, Below-lookup,
  HasDistinctKeys-insert,
}
use drip_marketplace.Commission.Refund.Allocated.{AnyError}
use drip_marketplace.Orders.{allowed_order, token_matches}
use drip_marketplace.Commission.Settle.Once.{Books-tables}
use drip_marketplace.Returns.Request.{
  ReturnRequest, find_item, has_repeated_item, is_returnable, owned_order, new_return, store_return,
  validate_return_quantities, create_return, request_return, request_guest_return,
}
use drip_marketplace.Returns.Claims.{
  FitsItem, claimed-insert, validate_return_quantities-Fits, fits_together,
}
use drip_marketplace.Returns.Steps.{Move, status_in, Follow, Follows-refl, ReturnBooks, Handled}

module _ (order_id : ℕ) (user_id : Option ℕ) (request : ReturnRequest) (db : Db)
    (b : ReturnBooks db) where
  made : Return
  made = new_return order_id user_id request

  insert-Follow :
      Follow db.returns (insert db.next_id (new_return order_id user_id request) db.returns)
  insert-Follow id p found = elim (Bool-cases (db.next_id == id)) [
    | inl same ↦ absurd (ground (arith, Below-lookup db.next_id db.returns b.fresh))
    | inr other ↦ (
      p,
      ground (arith, lookup-insert db.next_id id (new_return order_id user_id request) db.returns),
      Follows-refl p,
    )
  ]

  store_return-Handled :
      has_repeated_item request.items ≡ false
      → All (FitsItem none db) request.items
      → Handled db (store_return (new_return order_id user_id request) db)
  unfolding find_item
  store_return-Handled distinct fits =
      let r : Return = new_return order_id user_id request in
      record {
        books = record {
          fresh = Below-insert db.next_id r db.returns b.fresh;
          distinct = HasDistinctKeys-insert db.next_id r db.returns b.fresh b.distinct;
          items_distinct =
              Holds-insert (λ q. has_repeated_item q.items ≡ false) db.next_id r db.returns distinct
                b.items_distinct;
          within = λ i. omega (
            arith,
            claimed-insert i db.next_id r db.returns b.fresh,
            fits_together none i request.items db distinct fits (b.within i),
          );
        };
        follow = insert-Follow;
        move =
            Move.file db.next_id (ap status_in (Below-lookup db.next_id db.returns b.fresh))
              (ap status_in (lookup-insert_self db.next_id r db.returns))
              (λ k other. ap status_in (ground (arith, lookup-insert db.next_id k r db.returns)));
        orders = refl;
        accounts = λ a. Books-tables db (store_return r db) a refl refl;
      }

create_return-Handled :
    (order : Order) (so : SellerOrder) (user_id : Option ℕ) (request : ReturnRequest) (db : Db)
    → ReturnBooks db
    → Ends (λ _ db'. Handled db db') AnyError (create_return order so user_id request db)
unfolding create_return
create_return-Handled order so user_id request db b =
    Ends-guard P AnyError db (not (is_returnable order.status)) _ _ (λ _. tt)
      (λ _.
        Ends-guard P AnyError db (has_repeated_item request.items) _ _ (λ _. tt)
          (λ distinct.
            Ends-then (validate_return_quantities so.order_id so.seller_id none request.items)
              (λ _ t. (t ≡ db) × All (FitsItem none db) request.items) P AnyError db _
              (validate_return_quantities-Fits so.order_id so.seller_id none request.items db)
              (λ _ t v.
                rw v.0 (store_return-Handled so.order_id user_id request db b distinct v.1))))
  where
    P : ℕ → Db → Type 0
    P _ db' = Handled db db'

pub request_return-Handled :
    (account_open : Bool) (user_id : ℕ) (request : ReturnRequest) (db : Db)
    → ReturnBooks db
    → Ends (λ _ db'. Handled db db') AnyError (request_return account_open user_id request db)
unfolding request_return
request_return-Handled account_open user_id request db b =
    Ends-guard P AnyError db (not account_open) _ _ (λ _. tt)
      (λ _.
        Ends-require P AnyError db (lookup request.seller_order_id db.seller_orders) _ _ (λ _. tt)
          (λ so _.
            Ends-require P AnyError db (owned_order user_id (lookup so.order_id db.orders)) _ _
              (λ _. tt) (λ order _. create_return-Handled order so (some user_id) request db b)))
  where
    P : ℕ → Db → Type 0
    P _ db' = Handled db db'

pub request_guest_return-Handled :
    (guest_token : Option Bool) (request : ReturnRequest) (db : Db)
    → ReturnBooks db
    → Ends (λ _ db'. Handled db db') AnyError (request_guest_return guest_token request db)
unfolding request_guest_return
request_guest_return-Handled guest_token request db b =
    Ends-guard P AnyError db (not (is_some guest_token)) _ _ (λ _. tt)
      (λ _.
        Ends-require P AnyError db (lookup request.seller_order_id db.seller_orders) _ _ (λ _. tt)
          (λ so _.
            Ends-require P AnyError db
              (allowed_order none (token_matches guest_token) (lookup so.order_id db.orders)) _ _
              (λ _. tt) (λ order _. create_return-Handled order so none request db b)))
  where
    P : ℕ → Db → Type 0
    P _ db' = Handled db db'
