-- ===== src/Orders/Replay/Once.antt =====
-- A checkout that went through can be sent again, or recovered: the answer is the same order, and nothing
-- changes.
use drip_marketplace.Prelude.{
  ℕ, ◌≡◌, refl, sym, ap, ◌∙◌, inl, inr, Bool, true, false, not, Option, none, some, List, [], ◌∷◌,
  ◌++◌, arith, length, ◌==◌, is_some, if◌then◌else◌, Bool-cases, Option-cases,
}
use drip_marketplace.Db.{
  Db, raise_if, guest_details_required, ok, err, checkout_recovery_expired, Order, PaymentMethod,
  Ends, Ends-bind, Ends-guard, Ends-require, Ends-weaken, insert-append, ◌>>=◌, ◌>>◌,
}
use drip_marketplace.Commission.Refund.Allocated.{AnyError}
use drip_marketplace.Checkout.{Calculation, merge_items}
use drip_marketplace.Orders.Place.{CheckoutGuard, CheckoutRequest, build_order, create_guest_order}
use drip_marketplace.Orders.Place.Placed.{OrderBooks, Placed, build_order-Placed}
use drip_marketplace.Orders.Replay.{
  OrderRow, same_id, find_by_key, is_stale, check_found, find_order, CheckoutCall, create_order,
  create_new, guard_for, replay_or_create, create_checkout, recover_checkout,
}

-- The key has made this order, for this caller and these details.
pub record Made (call : CheckoutCall) (id : ℕ) (db : Db) : Type 0 where
  pub order : Order
  pub found : find_by_key call.key_hash db.orders ≡ some (id, order)
  pub owner : same_id order.user_id call.request.user_id ≡ true
  pub details : same_id order.checkout_request_hash (some call.request_hash) ≡ true

same_id_refl : (a : Option ℕ) → same_id a a ≡ true
same_id_refl none = refl
same_id_refl (some a) = ground arith

find_by_key-append :
    (hashed : ℕ) (row : OrderRow) (rows : List OrderRow)
    → find_by_key hashed rows ≡ none
    → same_id row.1.checkout_key_hash (some hashed) ≡ true
    → find_by_key hashed (rows ++ row ∷ []) ≡ some row
unfolding find_by_key
find_by_key-append hashed row [] e h = rw h refl
find_by_key-append hashed row (other ∷ rows) e h =
    elim (Bool-cases (same_id other.1.checkout_key_hash (some hashed))) [
      | inl same ↦ absurd (ground arith)
      | inr apart ↦ rw apart (find_by_key-append hashed row rows (rw apart at e) h)
    ]

module _ (call : CheckoutCall) (db : Db) (b : OrderBooks db) where
  Placed-Made :
      (accepts : Calculation → ℕ → Option ℕ → PaymentMethod → Bool) (request : CheckoutRequest)
      (id : ℕ) (db' : Db)
      → request.user_id ≡ call.request.user_id
      → find_by_key call.key_hash db.orders ≡ none
      → Placed request (some (guard_for call accepts)) id db db'
      → Made call id db'
  Placed-Made accepts request id db' mine unused p =
      let key : same_id p.order.checkout_key_hash (some call.key_hash) ≡ true =
        rw p.keyed.0 (same_id_refl (some call.key_hash)) in
      let table : db'.orders ≡ db.orders ++ (id, p.order) ∷ [] =
        p.rows ∙ rw p.fresh (insert-append db.next_id p.order db.orders b.orders_fresh) in
      record {
        order = p.order;
        found = rw table (find_by_key-append call.key_hash (id, p.order) db.orders unused key);
        owner = rw (p.owner, mine) (same_id_refl call.request.user_id);
        details = rw p.keyed.1 (same_id_refl (some call.request_hash));
      }

  create_new_by :
      (now : ℕ) (guard : CheckoutGuard) (account : Bool)
      → is_some call.request.user_id ≡ account
      → create_new now call guard db
        ≡ (if account
              then create_order now call guard
              else (raise_if (not call.guest_details) guest_details_required
                  >> create_guest_order now call.request (some guard) call.items))
            db
  create_new_by now guard account e =
      ap
        (λ t.
          (if t
              then create_order now call guard
              else (raise_if (not call.guest_details) guest_details_required
                  >> create_guest_order now call.request (some guard) call.items))
            db)
        e

  create_new-Made :
      (now : ℕ) (accepts : Calculation → ℕ → Option ℕ → PaymentMethod → Bool)
      → find_by_key call.key_hash db.orders ≡ none
      → Ends (λ id db'. Made call id db') AnyError (create_new now call (guard_for call accepts) db)
  create_new-Made now accepts unused = elim (Option-cases call.request.user_id) [
    | inr (user, account) ↦
        rw (create_new_by now (guard_for call accepts) true (ap is_some account)) (
          Ends-guard P AnyError db (not call.account_open) _ _ (λ _. tt)
            (λ _.
              Ends-guard P AnyError db (length call.items == 0) _ _ (λ _. tt)
                (λ _.
                  Ends-weaken
                    (λ id db'. Placed call.request (some (guard_for call accepts)) id db db') P
                    AnyError AnyError
                    (build_order now call.request (some (guard_for call accepts)) call.items db)
                    (build_order-Placed now call.request (some (guard_for call accepts)) call.items
                      db b)
                    (λ id db' p. Placed-Made accepts call.request id db' refl unused p)
                    (λ _ _. tt))))
    | inl guest ↦ rw (create_new_by now (guard_for call accepts) false (ap is_some guest)) (
        Ends-guard P AnyError db (not call.guest_details) _ _ (λ _. tt)
          (λ _.
            (Ends-weaken
              (λ id db'.
                Placed (record call.request { user_id = none }) (some (guard_for call accepts)) id
                  db db')
              P AnyError AnyError
              (build_order now (record call.request { user_id = none })
                (some (guard_for call accepts)) (merge_items call.items) db)
              (build_order-Placed now (record call.request { user_id = none })
                (some (guard_for call accepts)) (merge_items call.items) db b)
              (λ id db' p.
                Placed-Made accepts (record call.request { user_id = none }) id db' (sym guest)
                  unused p)
              (λ _ _. tt))))
  ]
    where
      P : ℕ → Db → Type 0
      P id db' = Made call id db'

-- A row that was found is the caller's.
abbrev AllOwned : Option ℕ → Option OrderRow → Type 0
AllOwned user_id none = Unit
AllOwned user_id (some row) = same_id row.1.user_id user_id ≡ true

-- The order is the answer, unless it is a guest's and the time to recover it is over.
abbrev pub Answers : ℕ → CheckoutCall → ℕ → Order → Db → Type 0
Answers later call id order db =
    let answer =
      if is_stale later call.request.user_id order
      then err checkout_recovery_expired
      else ok id db in
    (create_checkout later true call db ≡ answer)
    × (recover_checkout later true call.key_hash call.request.user_id db ≡ answer)

Made-Answers :
    (later : ℕ) (call : CheckoutCall) (id : ℕ) (db : Db) (m : Made call id db)
    → Answers later call id m.order db
unfolding create_checkout recover_checkout find_order
Made-Answers later call id db m = elim (Bool-cases (is_stale later call.request.user_id m.order)) [
  | inl stale ↦ (
    rw (◌>>=◌, ◌>>◌, m.found) (rw (m.owner, stale) refl),
    rw (◌>>=◌, ◌>>◌, m.found) (rw (m.owner, stale) refl),
  )
  | inr recent ↦ (
    rw (◌>>=◌, ◌>>◌, m.found) (rw (m.owner, recent) (rw m.details refl)),
    rw (◌>>=◌, ◌>>◌, m.found) (rw (m.owner, recent) refl),
  )
]

check_found_recent :
    (now : ℕ) (user_id : Option ℕ) (row : OrderRow) (db : Db)
    → same_id row.1.user_id user_id ≡ true
    → is_stale now user_id row.1 ≡ false
    → check_found now user_id (some row) db ≡ ok (some row) db
check_found_recent now user_id row db mine recent = rw (◌>>=◌, ◌>>◌, mine, recent) refl

find_order-frame :
    (now : ℕ) (acquired : Bool) (hashed : ℕ) (user_id : Option ℕ) (db : Db)
    → Ends
        (λ previous t.
          (t ≡ db) × (find_by_key hashed db.orders ≡ previous) × AllOwned user_id previous)
        AnyError
        (find_order now acquired hashed user_id db)
unfolding find_order
find_order-frame now acquired hashed user_id db =
    Ends-guard P AnyError db (not acquired) _ _ (λ _. tt)
      (λ _. elim (Option-cases (find_by_key hashed db.orders)) [
        | inl unused ↦ rw (unused, ◌>>=◌, Ends) (refl, unused, tt)
        | inr (row, found) ↦ elim (Bool-cases (same_id row.1.user_id user_id)) [
          | inr foreign ↦ rw (found, ◌>>=◌, foreign, Ends) tt
          | inl mine ↦ elim (Bool-cases (is_stale now user_id row.1)) [
            | inl stale ↦ rw (found, ◌>>=◌, ◌>>◌, mine, stale, Ends) tt
            | inr recent ↦
                rw found
                  (rw (check_found_recent now user_id row db mine recent) (refl, found, mine))
          ]
        ]
      ])
  where
    P : Option OrderRow → Db → Type 0
    P previous t = (t ≡ db) × (find_by_key hashed db.orders ≡ previous) × AllOwned user_id previous

same_details :
    (now : ℕ) (call : CheckoutCall) (row : OrderRow) (db : Db)
    → same_id row.1.checkout_request_hash (some call.request_hash) ≡ true
    → replay_or_create now call (some row) db ≡ ok row.0 db
same_details now call row db same = rw (◌>>◌, same) refl

replay_or_create-Made :
    (now : ℕ) (call : CheckoutCall) (previous : Option OrderRow) (db : Db)
    → OrderBooks db
    → find_by_key call.key_hash db.orders ≡ previous
    → AllOwned call.request.user_id previous
    → Ends (λ id db'. Made call id db') AnyError (replay_or_create now call previous db)
replay_or_create-Made now call none db b unused _ =
    Ends-require P AnyError db call.quote _ _ (λ _. tt)
      (λ accepts _. create_new-Made call db b now accepts unused)
  where
    P : ℕ → Db → Type 0
    P id db' = Made call id db'
replay_or_create-Made now call (some row) db b found mine =
    elim (Bool-cases (same_id row.1.checkout_request_hash (some call.request_hash))) [
      | inl same ↦
          rw (same_details now call row db same)
            (record { order = row.1; found = found; owner = mine; details = same })
      | inr other ↦ rw (◌>>◌, other, Ends) tt
    ]

create_checkout-Made :
    (now : ℕ) (acquired : Bool) (call : CheckoutCall) (db : Db)
    → OrderBooks db
    → Ends (λ id db'. Made call id db') AnyError (create_checkout now acquired call db)
unfolding create_checkout
create_checkout-Made now acquired call db b =
    Ends-bind (find_order now acquired call.key_hash call.request.user_id)
      (λ previous t.
        (t ≡ db)
        × (find_by_key call.key_hash db.orders ≡ previous)
        × AllOwned call.request.user_id previous)
      (λ id db'. Made call id db') AnyError db _
      (find_order-frame now acquired call.key_hash call.request.user_id db)
      (λ previous t f. rw f.0 (replay_or_create-Made now call previous db b f.1 f.2))

-- A checkout that goes through has made one order for its key: sent again at any later time, and also when
-- it is recovered, it is answered with that order and nothing changes (or, for a guest after a day, it is
-- refused); it never makes another.
pub create_checkout-Answers :
    (now later : ℕ) (acquired : Bool) (call : CheckoutCall) (db : Db)
    → OrderBooks db
    → Ends
        (λ id db'.
          (order : Order) × (find_by_key call.key_hash db'.orders ≡ some (id, order))
          × Answers later call id order db')
        AnyError
        (create_checkout now acquired call db)
create_checkout-Answers now later acquired call db b =
    Ends-weaken (λ id db'. Made call id db')
      (λ id db'.
        (order : Order) × (find_by_key call.key_hash db'.orders ≡ some (id, order))
        × Answers later call id order db')
      AnyError AnyError (create_checkout now acquired call db)
      (create_checkout-Made now acquired call db b)
      (λ id db' m. (m.order, m.found, Made-Answers later call id db' m)) (λ _ _. tt)
