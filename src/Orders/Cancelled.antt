-- ===== src/Orders/Cancelled.antt =====
-- Who may cancel an order, and when it is cancelled by itself.
use drip_marketplace.Prelude.{
  sum_of-sort_by, ℕ, ◌+◌, ◌≡◌, refl, ◌∙◌, ◌⊎◌, inl, inr, Bool, true, false, not, ◌&&◌, ◌||◌, Option,
  none, some, List, arith, leb, is_some, Bool-cases, Option-cases,
}
use drip_marketplace.Db.{
  Db, ok, Order, OrderItem, Ends, Ends-bind, Ends-guard, Ends-weaken, lookup, ◌>>=◌,
}
use drip_marketplace.Commission.Refund.Allocated.{AnyError}
use drip_marketplace.Orders.{
  seller_orders_of, allowed_order, is_allowed, token_matches, authorized_order, is_cancellable,
  any_dispatched, was_paid, cancel_order, close_order,
}
use drip_marketplace.Orders.Expiry.{
  is_pending_cod, is_cod, by_variant, sorted_items, time_out, cod_verification_timeout,
}
use drip_marketplace.Orders.Closed.{quantity_total, Closed, close_order-Closed}

-- The order is there, and it is the account's, or a guest's with a token that fits.
pub record Authorized (order_id : ℕ) (user_id : Option ℕ) (guest_token : Option Bool) (db : Db)
    (order : Order) : Type 0 where
  pub found : lookup order_id db.orders ≡ some order
  pub allowed : is_allowed user_id (token_matches guest_token) order ≡ true
  pub signed_in : is_some user_id || is_some guest_token ≡ true

allowed-found :
    (user_id : Option ℕ) (matches : Bool) (o : Option Order) (order : Order)
    → allowed_order user_id matches o ≡ some order
    → (o ≡ some order) × (is_allowed user_id matches order ≡ true)
allowed-found user_id matches none order e = absurd (ground (arith, e))
allowed-found user_id matches (some other) order e =
    elim (Bool-cases (is_allowed user_id matches other)) [
      | inl allowed ↦
          let same : some other ≡ some order = rw allowed at e in
          let row : other ≡ order = ground arith in (same, rw (← row) allowed)
      | inr foreign ↦
          let nothing : none ≡ some order = rw foreign at e in absurd (ground (arith, nothing))
    ]

authorized_order-Authorized :
    (order_id : ℕ) (user_id : Option ℕ) (guest_token : Option Bool) (db : Db)
    → Ends
        (λ order db'. (db' ≡ db) × Authorized order_id user_id guest_token db order)
        AnyError
        (authorized_order order_id user_id guest_token db)
unfolding authorized_order
authorized_order-Authorized order_id user_id guest_token db =
    Ends-guard P AnyError db (not (is_some user_id) && not (is_some guest_token)) _ _ (λ _. tt)
      (λ someone.
        elim (Option-cases
          (allowed_order user_id (token_matches guest_token) (lookup order_id db.orders))) [
            | inl refused ↦ rw (◌>>=◌, refused, Ends) tt
            | inr (order, there) ↦
                let a =
                  allowed-found user_id (token_matches guest_token) (lookup order_id db.orders)
                    order there in
                rw (◌>>=◌, there, Ends)
                  (refl, record { found = a.0; allowed = a.1; signed_in = ground arith })
          ])
  where
    P : Order → Db → Type 0
    P order db' = (db' ≡ db) × Authorized order_id user_id guest_token db order

-- A cancellation that goes through: the caller may see the order, which is not paid, not dispatched and at
-- a status that can be cancelled, and it is closed.
pub record Cancelled (order_id : ℕ) (user_id : Option ℕ) (guest_token : Option Bool) (db db' : Db)
    : Type 0 where
  pub order : Order
  pub authorized : Authorized order_id user_id guest_token db order
  pub cancellable : is_cancellable order.status ≡ true
  pub undispatched : any_dispatched (seller_orders_of order_id db) ≡ false
  pub unpaid : was_paid (lookup order_id db.payments) ≡ false
  pub closed : Closed false order_id order.items db db'

-- An order is cancelled only by its account or its guest, only before dispatch and payment, and then it
-- and all its seller orders are cancelled, nothing is reserved anew, and the stock is the same.
pub cancel_order-Cancelled :
    (now order_id : ℕ) (user_id : Option ℕ) (guest_token : Option Bool) (db : Db)
    → Ends
        (λ _ db'. Cancelled order_id user_id guest_token db db')
        AnyError
        (cancel_order now order_id user_id guest_token db)
unfolding cancel_order
cancel_order-Cancelled now order_id user_id guest_token db =
    Ends-bind (authorized_order order_id user_id guest_token)
      (λ order t. (t ≡ db) × Authorized order_id user_id guest_token db order) P AnyError db _
      (authorized_order-Authorized order_id user_id guest_token db)
      (λ order t seen. rw seen.0 (
        Ends-guard P AnyError db (not (is_cancellable order.status)) _ _ (λ _. tt)
          (λ cancellable.
            Ends-guard P AnyError db (any_dispatched (seller_orders_of order_id db)) _ _ (λ _. tt)
              (λ undispatched.
                Ends-guard P AnyError db (was_paid (lookup order_id db.payments)) _ _ (λ _. tt)
                  (λ unpaid.
                    Ends-weaken (λ _ db'. Closed false order_id order.items db db') P AnyError
                      AnyError (close_order now false order_id order.items db)
                      (close_order-Closed now false order_id order.items order db seen.1.found)
                      (λ _ db' c. record {
                        order = order;
                        authorized = seen.1;
                        cancellable = ground arith;
                        undispatched = undispatched;
                        unpaid = unpaid;
                        closed = c;
                      })
                      (λ _ _. tt))))))
  where
    P : Unit {0} → Db → Type 0
    P _ db' = Cancelled order_id user_id guest_token db db'

-- Is the order still unverified when its deadline has passed?
abbrev pub is_due : ℕ → Db → Order → Bool
is_due now db order =
    is_pending_cod order.status
    && (is_cod order.payment_method && leb (order.created_at + db.settings.cod_timeout) now)

-- How the worker ends: an order that is there and due is closed, with all its units given back; in every
-- other case nothing changes.
abbrev pub TimesOut : ℕ → ℕ → Db → Db → Type 0
TimesOut now order_id db db' =
    ((db' ≡ db)
      × ((order : Order) → lookup order_id db.orders ≡ some order → is_due now db order ≡ false))
    ⊎ ((order : Order) × (lookup order_id db.orders ≡ some order)
        × (is_due now db order ≡ true)
        × Closed true order_id (sorted_items order.items) db db'
        × (quantity_total (sorted_items order.items) ≡ quantity_total order.items))

quantity_total-sorted :
    (items : List OrderItem) → quantity_total (sorted_items items) ≡ quantity_total items
unfolding sorted_items
quantity_total-sorted items = sum_of-sort_by by_variant (λ item. item.quantity) items

module _ (now order_id : ℕ) (db : Db) where
  time_out_idle :
      (order : Order)
      → lookup order_id db.orders ≡ some order
      → is_due now db order ≡ false
      → time_out now order_id order db ≡ ok tt db
  time_out_idle order found idle = ground arith

  time_out_due :
      (order : Order)
      → is_due now db order ≡ true
      → time_out now order_id order db ≡ close_order now true order_id (sorted_items order.items) db
  time_out_due order due = ground arith

  timeout_found :
      (order : Order)
      → lookup order_id db.orders ≡ some order
      → cod_verification_timeout now order_id db ≡ time_out now order_id order db
  unfolding cod_verification_timeout
  timeout_found order found = rw (found, cod_verification_timeout) refl

  timeout_missing :
      lookup order_id db.orders ≡ none → cod_verification_timeout now order_id db ≡ ok tt db
  unfolding cod_verification_timeout
  timeout_missing absent = rw (absent, cod_verification_timeout) refl

  -- A cash order is closed by the worker exactly when it is still unverified and its deadline has passed;
  -- then every unit that it had reserved is given back.
  pub cod_verification_timeout-TimesOut :
      Ends
        (λ _ db'. TimesOut now order_id db db')
        AnyError
        (cod_verification_timeout now order_id db)
  cod_verification_timeout-TimesOut = elim (Option-cases (lookup order_id db.orders)) [
    | inl absent ↦
        rw (timeout_missing absent) (inl (refl, λ order there. absurd (ground (arith, there))))
    | inr (order, found) ↦ elim (Bool-cases (is_due now db order)) [
      | inl due ↦ rw (timeout_found order found ∙ time_out_due order due) (
          Ends-weaken (λ _ db'. Closed true order_id (sorted_items order.items) db db')
            (λ _ db'. TimesOut now order_id db db') AnyError AnyError
            (close_order now true order_id (sorted_items order.items) db)
            (close_order-Closed now true order_id (sorted_items order.items) order db found)
            (λ _ db' c. inr (order, found, due, c, quantity_total-sorted order.items)) (λ _ _. tt))
      | inr idle ↦
          rw (timeout_found order found ∙ time_out_idle order found idle)
            (inl (refl, λ other there. let same : order ≡ other = ground arith in rw (← same) idle))
    ]
  ]
