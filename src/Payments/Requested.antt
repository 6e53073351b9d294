-- ===== src/Payments/Requested.antt =====
-- A refund request never takes more than the payment has left.
use drip_marketplace.Prelude.{
  ℕ, ◌+◌, ◌-◌, ◌≤◌, ◌≡◌, refl, inl, inr, false, not, ◌||◌, Option, none, some, arith, ltb, ◌==◌,
  is_some, if◌then◌else◌, Bool-cases, Option-cases,
}
use drip_marketplace.Db.{
  Db, Payment, is_completed, Ends, Ends-then, Ends-guard, Ends-require, lookup, Below, Below-insert,
  Below-modify, total-insert_fresh, total-modify_same,
}
use drip_marketplace.Commission.Refund.Allocated.{AnyError}
use drip_marketplace.Texts.{same_text, same_optional}
use drip_marketplace.Payments.{
  RefundRow, RefundRequest, pkr, find_request, part_of, total_refunded, with_return, set_return,
  link_to, link_return, reuse_request, new_refund, store_refund, is_other, request_new, refund,
}

-- The refunds of each payment, the waiting ones included, are no more than its amount.
pub record RefundBooks (db : Db) : Type 0 where
  pub covered :
      (k : ℕ) (p : Payment) → lookup k db.payments ≡ some p → total_refunded k db ≤ p.amount
  pub refunds_fresh : Below db.next_id db.refunds

-- The request was made before, or the payment is completed and has enough left.
pub record RefundRequested (payment_id : ℕ) (request : RefundRequest) (db db' : Db) : Type 0 where
  books : RefundBooks db'
  payments : db'.payments ≡ db.payments
  others : (k : ℕ) → (payment_id == k) ≡ false → total_refunded k db' ≡ total_refunded k db
  taken :
      total_refunded payment_id db'
      ≡ (if is_some (find_request payment_id request.idempotency_key db.refunds)
          then 0
          else request.amount)
        + total_refunded payment_id db

module _ (payment_id : ℕ) (request : RefundRequest) (return_id : Option ℕ) (db : Db)
    (b : RefundBooks db) where
  total-set_return :
      (k id refund_id : ℕ) → total_refunded k (set_return refund_id id db) ≡ total_refunded k db
  total-set_return k id refund_id =
      total-modify_same (part_of k) refund_id (with_return id) db.refunds (λ r. refl)

  -- Linking a request to its return moves no money.
  pub record Linked (db' : Db) : Type 0 where
    pub books : RefundBooks db'
    pub payments : db'.payments ≡ db.payments
    pub same : (k : ℕ) → total_refunded k db' ≡ total_refunded k db

  untouched : Linked db
  untouched = record { books = b; payments = refl; same = λ k. refl }

  set_return-Linked : (refund_id id : ℕ) → Linked (set_return refund_id id db)
  set_return-Linked refund_id id = record {
    books = record {
      covered = λ k p found. rw (total-set_return k id refund_id) (b.covered k p found);
      refunds_fresh = Below-modify db.next_id refund_id (with_return id) db.refunds b.refunds_fresh;
    };
    payments = refl;
    same = λ k. total-set_return k id refund_id;
  }

  link_to-Linked :
      (id : ℕ) (row : RefundRow) (old : Option ℕ)
      → Ends (λ _ db'. Linked db') AnyError (link_to id row old db)
  unfolding link_to
  link_to-Linked id row (some other) = elim (Bool-cases (not (other == id))) [
    | inl apart ↦ rw (apart, Ends) tt
    | inr same ↦ rw (same, Ends) untouched
  ]
  link_to-Linked id row none =
      Ends-guard (λ _ db'. Linked db') AnyError db (is_some row.1.processed_at) _ _ (λ _. tt)
        (λ _. set_return-Linked row.0 id)

  link_return-Linked :
      (row : RefundRow) (asked : Option ℕ)
      → Ends (λ _ db'. Linked db') AnyError (link_return asked row db)
  link_return-Linked row none = untouched
  link_return-Linked row (some id) = link_to-Linked id row row.1.return_id

  store_refund-total :
      (k : ℕ)
      → total_refunded k (store_refund payment_id request return_id db)
        ≡ (if payment_id == k then request.amount else 0) + total_refunded k db
  store_refund-total k = omega (
    arith,
    total-insert_fresh (part_of k) db.next_id (new_refund payment_id request return_id) db.refunds
        b.refunds_fresh,
  )

  store_refund-Books :
      (payment : Payment)
      → lookup payment_id db.payments ≡ some payment
      → ltb payment.amount (request.amount + total_refunded payment_id db) ≡ false
      → RefundBooks (store_refund payment_id request return_id db)
  store_refund-Books payment found enough = record {
    covered = λ k p e. elim (Bool-cases (payment_id == k)) [
      | inl same ↦ ground (arith, store_refund-total k, b.covered k p e)
      | inr other ↦
          omega (arith, rw (other, if◌then◌else◌) at (store_refund-total k), b.covered k p e)
    ];
    refunds_fresh =
        Below-insert db.next_id (new_refund payment_id request return_id) db.refunds
          b.refunds_fresh;
  }

  request_new-Requested :
      (payment : Payment)
      → lookup payment_id db.payments ≡ some payment
      → find_request payment_id request.idempotency_key db.refunds ≡ none
      → Ends
          (λ _ db'. RefundRequested payment_id request db db')
          AnyError
          (request_new payment_id request return_id payment db)
  unfolding request_new
  request_new-Requested payment found unused =
      Ends-guard P AnyError db (not (is_completed payment.status)) _ _ (λ _. tt)
        (λ _.
          Ends-guard P AnyError db (not (same_text payment.currency pkr)) _ _ (λ _. tt)
            (λ _.
              Ends-guard P AnyError db
                (is_other request.expected_remaining
                  (payment.amount - total_refunded payment_id db))
                _ _ (λ _. tt)
                (λ _.
                  Ends-guard P AnyError db
                    (ltb payment.amount (request.amount + total_refunded payment_id db)) _ _
                    (λ _. tt)
                    (λ enough. record {
                      books = store_refund-Books payment found enough;
                      payments = refl;
                      others = λ k other. ground (arith, store_refund-total k);
                      taken = rw unused (ground (arith, store_refund-total payment_id));
                    }))))
    where
      P : ℕ → Db → Type 0
      P _ db' = RefundRequested payment_id request db db'

  reuse_request-Requested :
      (row : RefundRow)
      → find_request payment_id request.idempotency_key db.refunds ≡ some row
      → Ends
          (λ _ db'. RefundRequested payment_id request db db')
          AnyError
          (reuse_request request return_id row db)
  unfolding reuse_request
  reuse_request-Requested row found =
      Ends-guard P AnyError db
        (not (row.1.amount == request.amount)
          || not (same_optional row.1.reason (some request.reason)))
        _ _ (λ _. tt)
        (λ _.
          Ends-then (link_return return_id row) (λ _ t. Linked t) P AnyError db _
            (link_return-Linked row return_id)
            (λ _ t l. record {
              books = l.books;
              payments = l.payments;
              others = λ k _. l.same k;
              taken = rw found (omega (arith, l.same payment_id));
            }))
    where
      P : ℕ → Db → Type 0
      P _ db' = RefundRequested payment_id request db db'

-- Where the refunds of every payment are within its amount and have identifiers below the next one, a refund
-- request keeps this. It touches no payment and no other
-- payment's refunds; a key that was used before adds nothing, and a new request adds exactly its amount.
pub refund-Requested :
    (payment_id : ℕ) (request : RefundRequest) (return_id : Option ℕ) (db : Db)
    → RefundBooks db
    → Ends
        (λ _ db'. RefundRequested payment_id request db db')
        AnyError
        (refund payment_id request return_id db)
unfolding refund
refund-Requested payment_id request return_id db b =
    Ends-require P AnyError db (lookup payment_id db.payments) _ _ (λ _. tt)
      (λ payment found.
        elim (Option-cases (find_request payment_id request.idempotency_key db.refunds)) [
          | inl unused ↦
              rw unused
                (request_new-Requested payment_id request return_id db b payment found unused)
          | inr (row, used) ↦
              rw used (reuse_request-Requested payment_id request return_id db b row used)
        ])
  where
    P : ℕ → Db → Type 0
    P _ db' = RefundRequested payment_id request db db'
