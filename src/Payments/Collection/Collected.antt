-- ===== src/Payments/Collection/Collected.antt =====
-- A cash collection is recorded once, for the whole order, and settles all of its sellers.
use drip_marketplace.Prelude.{
  All-sort_by, ℕ, ◌≤◌, ◌≡◌, refl, ◌⊎◌, inl, inr, Bool, true, false, not, ◌&&◌, ◌||◌, Option, some,
  List, [], ◌∷◌, arith, map, ◌==◌, is_some, Bool-cases, All,
}
use drip_marketplace.Db.{
  Db, Text, ok, Payment, Order, is_completed, Ends, Ends-then, Ends-guard, Ends-require,
  Ends-weaken, lookup, lookup-modify_self, ◌>>=◌, ◌>>◌,
}
use drip_marketplace.Texts.{strip, same_text, same_optional}
use drip_marketplace.Payments.Retried.{same_optional_refl}
use drip_marketplace.Commission.Ledger.{rate_scale}
use drip_marketplace.Commission.Ledger.Charged.{Books}
use drip_marketplace.Commission.Refund.Allocated.{AnyError}
use drip_marketplace.Commission.Settle.Every.{HasEntry, Kept, settle_every, settle_every-Kept}
use drip_marketplace.Payments.{pkr, is_other}
use drip_marketplace.Payments.Collection.{
  SellerOrderRow, is_bad_collection, is_cash, was_delivered, is_blocked, has_text,
  collected_payment, store_collection, is_first, sorted_rows, rows_of, row_id, collected_before,
  collect_now, collect, record_cod_collection,
}

All-ids :
    (P : ℕ → Type 0) (rows : List SellerOrderRow)
    → All P (map row_id rows)
    → All (λ row. P row.0) rows
All-ids P [] h = tt
All-ids P (row ∷ rows) h = (h.0, All-ids P rows h.1)

All-rows :
    (P : ℕ → Type 0) (rows : List SellerOrderRow)
    → All (λ row. P row.0) rows
    → All P (map row_id rows)
All-rows P [] h = tt
All-rows P (row ∷ rows) h = (h.0, All-rows P rows h.1)

-- Sorting keeps every row.
All-sorted_rows :
    (P : ℕ → Type 0) (rows : List SellerOrderRow)
    → All P (map row_id (sorted_rows rows))
    → All P (map row_id rows)
unfolding sorted_rows
All-sorted_rows P rows h =
    All-rows P rows (All-sort_by is_first (λ row. P row.0) rows (All-ids P (sorted_rows rows) h))

-- The payment of the order is recorded as collected, with the reference.
pub record Recorded (payment_id : ℕ) (reference : Text) (db : Db) : Type 0 where
  pub payment : Payment
  pub order : Order
  pub paid : lookup payment_id db.payments ≡ some payment
  pub ordered : lookup payment_id db.orders ≡ some order
  pub delivered : (is_cash payment order && was_delivered order.status) ≡ true
  pub collected : is_completed payment.status ≡ true
  pub in_full : (same_text payment.currency pkr && payment.amount == order.total) ≡ true
  pub evidence : same_optional payment.gateway_reference (some (strip reference)) ≡ true
  pub receipt : (not (is_some payment.paid_at) || not (has_text payment.gateway_reference)) ≡ false

Recorded-again :
    (now payment_id admin : ℕ) (reference : Text) (expected : Option ℕ) (was_changed : Bool)
    (db : Db)
    → is_bad_collection reference ≡ false
    → Recorded payment_id reference db
    → record_cod_collection now payment_id admin reference expected was_changed db ≡ ok tt db
unfolding record_cod_collection collected_before
Recorded-again now payment_id admin reference expected was_changed db good r =
    rw (◌>>◌, ◌>>=◌, good)
      (rw (r.paid, r.ordered)
        (rw (r.delivered, r.collected) (rw (r.in_full, r.evidence, r.receipt) refl)))

blocked_in_full :
    (payment : Payment) (order : Order) (rows : List SellerOrderRow)
    → is_blocked payment order rows ≡ false
    → (same_text payment.currency pkr && payment.amount == order.total) ≡ true
unfolding is_blocked
blocked_in_full payment order rows h = ground arith

-- Nothing happened, or all sellers of the order have been settled just now.
abbrev pub SettlesOrder : ℕ → Db → Db → Type 0
SettlesOrder payment_id db db' =
    (db' ≡ db) ⊎ (Books db' × All (HasEntry db') (map row_id (rows_of payment_id db)))

module _ (payment_id : ℕ) (reference : Text) (db : Db) (payment : Payment) (order : Order)
    (paid : lookup payment_id db.payments ≡ some payment)
    (ordered : lookup payment_id db.orders ≡ some order)
    (delivered : (is_cash payment order && was_delivered order.status) ≡ true) where
  abbrev Outcome : Unit {0} → Db → Type 0
  Outcome _ db' = Recorded payment_id reference db' × SettlesOrder payment_id db db'

  collected_before-Recorded :
      is_completed payment.status ≡ true
      → Ends Outcome AnyError (collected_before (strip reference) payment order db)
  unfolding collected_before
  collected_before-Recorded done =
      Ends-guard Outcome AnyError db
        (not (same_text payment.currency pkr && payment.amount == order.total)) _ _ (λ _. tt)
        (λ whole.
          Ends-guard Outcome AnyError db
            (not (same_optional payment.gateway_reference (some (strip reference)))) _ _ (λ _. tt)
            (λ same.
              Ends-guard Outcome AnyError db
                (not (is_some payment.paid_at) || not (has_text payment.gateway_reference)) _ _
                (λ _. tt)
                (λ receipt. (
                  record {
                    payment = payment;
                    order = order;
                    paid = paid;
                    ordered = ordered;
                    delivered = delivered;
                    collected = done;
                    in_full = ground arith;
                    evidence = ground arith;
                    receipt = receipt;
                  },
                  inl refl,
                ))))

  collect_now-Recorded :
      (now admin : ℕ) (expected : Option ℕ) (was_changed : Bool)
      → Books db
      → db.settings.commission_rate ≤ rate_scale
      → Ends Outcome AnyError
          (collect_now now payment_id admin (strip reference) expected was_changed payment order db)
  unfolding collect_now
  collect_now-Recorded now admin expected was_changed b h =
      let rows : List SellerOrderRow = rows_of payment_id db in
      let made : Payment = collected_payment now (strip reference) payment in
      let stored : Db = store_collection now payment_id admin (strip reference) payment db in
      let ids : List ℕ = map row_id (sorted_rows rows) in
      Ends-guard Outcome AnyError db (is_other expected payment.amount) _ _ (λ _. tt)
        (λ _.
          Ends-guard Outcome AnyError db was_changed _ _ (λ _. tt)
            (λ _.
              Ends-guard Outcome AnyError db (is_blocked payment order rows) _ _ (λ _. tt)
                (λ free.
                  Ends-then (settle_every now ids) (λ _ t. Kept stored t × All (HasEntry t) ids)
                    Outcome AnyError stored _
                    (settle_every-Kept now ids stored
                      (record {
                        ledgers_valid = b.ledgers_valid;
                        allocations_valid = b.allocations_valid;
                      })
                      h)
                    (λ _ t k.
                      Ends-guard Outcome AnyError t
                        (not (is_some made.paid_at) || not (has_text made.gateway_reference)) _ _
                        (λ _. tt)
                        (λ receipt. (
                          record {
                            payment = made;
                            order = order;
                            paid = rw k.0.payments_kept (
                                lookup-modify_self payment_id
                                  (collected_payment now (strip reference)) payment db.payments
                                  paid);
                            ordered = rw k.0.orders_kept ordered;
                            delivered = delivered;
                            collected = refl;
                            in_full = blocked_in_full payment order rows free;
                            evidence = same_optional_refl (strip reference);
                            receipt = receipt;
                          },
                          inr (k.0.books, All-sorted_rows (HasEntry t) rows k.1),
                        ))))))

collect-Recorded :
    (now payment_id admin : ℕ) (reference : Text) (expected : Option ℕ) (was_changed : Bool)
    (db : Db) (payment : Payment) (order : Order)
    → Books db
    → db.settings.commission_rate ≤ rate_scale
    → lookup payment_id db.payments ≡ some payment
    → lookup payment_id db.orders ≡ some order
    → Ends
        (λ _ db'. Recorded payment_id reference db' × SettlesOrder payment_id db db')
        AnyError
        (collect now payment_id admin (strip reference) expected was_changed payment order db)
collect-Recorded now payment_id admin reference expected was_changed db payment order b h paid
      ordered =
    Ends-guard P AnyError db (not (is_cash payment order && was_delivered order.status)) _ _
      (λ _. tt)
      (λ cash.
        let delivered : (is_cash payment order && was_delivered order.status) ≡ true =
          ground arith in
        elim (Bool-cases (is_completed payment.status)) [
          | inl done ↦ rw done (
              collected_before-Recorded payment_id reference db payment order paid ordered delivered
                done)
          | inr waiting ↦ rw waiting (
              collect_now-Recorded payment_id reference db payment order paid ordered delivered now
                admin expected was_changed b h)
        ])
  where
    P : Unit {0} → Db → Type 0
    P _ db' = Recorded payment_id reference db' × SettlesOrder payment_id db db'

-- On valid books and with a commission rate of at most one,
-- a cash collection that goes through was recorded before, and then nothing changes, or it is recorded now, and then
-- the books are valid and every seller order of the order is settled. The payment is complete in rupees for the order's total
-- and has the reference; recorded again with the same reference, whatever else is expected, it changes nothing.
pub record_cod_collection-Recorded :
    (now later payment_id admin other : ℕ) (reference : Text) (expected review : Option ℕ)
    (was_changed differs : Bool) (db : Db)
    → Books db
    → db.settings.commission_rate ≤ rate_scale
    → Ends
        (λ _ db'.
          Recorded payment_id reference db'
          × SettlesOrder payment_id db db'
          × (record_cod_collection later payment_id other reference review differs db' ≡ ok tt db'))
        AnyError
        (record_cod_collection now payment_id admin reference expected was_changed db)
unfolding record_cod_collection
record_cod_collection-Recorded now later payment_id admin other reference expected review
      was_changed differs db b h =
    Ends-guard Q AnyError db (is_bad_collection reference) _ _ (λ _. tt)
      (λ good.
        Ends-require Q AnyError db (lookup payment_id db.payments) _ _ (λ _. tt)
          (λ payment paid.
            Ends-require Q AnyError db (lookup payment_id db.orders) _ _ (λ _. tt)
              (λ order ordered.
                Ends-weaken P Q AnyError AnyError
                  (collect now payment_id admin (strip reference) expected was_changed payment order
                    db)
                  (collect-Recorded now payment_id admin reference expected was_changed db payment
                    order b h paid ordered)
                  (λ _ db' r. (
                    r.0,
                    r.1,
                    Recorded-again later payment_id other reference review differs db' good r.0,
                  ))
                  (λ _ _. tt))))
  where
    P : Unit {0} → Db → Type 0
    P _ db' = Recorded payment_id reference db' × SettlesOrder payment_id db db'

    Q : Unit {0} → Db → Type 0
    Q _ db' =
        Recorded payment_id reference db'
        × SettlesOrder payment_id db db'
        × (record_cod_collection later payment_id other reference review differs db' ≡ ok tt db')
