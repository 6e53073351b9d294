-- ===== src/Payments/Retried.antt =====
-- A refund request that went through can be sent again with its key.
use drip_marketplace.Prelude.{
  ℕ, ◌+◌, ◌-◌, ◌≡◌, refl, ap, ◌∙◌, inl, inr, Bool, true, false, not, ◌||◌, Option, none, some, List,
  arith, ltb, ◌==◌, is_some, Bool-cases, Option-cases,
}
use drip_marketplace.Db.{
  HasDistinctKeys, Db, refund_linked_elsewhere, Text, ok, Refund, Payment, is_completed, Ends,
  Ends-then, Ends-guard, Ends-require, Ends-weaken, raise_if, lookup, insert-append, Below, ◌>>=◌,
  ◌>>◌,
}
use drip_marketplace.Commission.Refund.Allocated.{AnyError}
use drip_marketplace.Texts.{same_text, same_optional}
use drip_marketplace.Wallet.Completion.{same_text_refl}
use drip_marketplace.Payments.{
  RefundRow, RefundRequest, pkr, has_key, find_refund, find_request, total_refunded, with_return,
  set_return, link_to, link_return, reuse_request, new_refund, store_refund, is_other, request_new,
  reuse_or_request, refund,
}
use drip_marketplace.Payments.Keys.{find_refund-modify, find_refund-append}

same_not : (id : ℕ) → not (id == id) ≡ false
same_not id = ground arith

-- The refund is still found by its key, with its amount and reason, and is linked as asked for.
pub record Relinked (payment_id : ℕ) (key : Text) (asked : Option ℕ) (row : RefundRow) (db t : Db)
    : Type 0 where
  pub refund_row : Refund
  pub found : find_refund payment_id key t.refunds ≡ some (row.0, refund_row)
  pub amount : refund_row.amount ≡ row.1.amount
  pub reason : refund_row.reason ≡ row.1.reason
  pub payments : t.payments ≡ db.payments
  pub linked : link_return asked (row.0, refund_row) t ≡ ok tt t

module _ (payment_id : ℕ) (key : Text) (row : RefundRow) (db : Db) (d : HasDistinctKeys db.refunds)
    (found : find_refund payment_id key db.refunds ≡ some row) where
  as_it_was :
      (asked : Option ℕ)
      → link_return asked row db ≡ ok tt db
      → Relinked payment_id key asked row db db
  as_it_was asked linked = record {
    refund_row = row.1;
    found = found;
    amount = refl;
    reason = refl;
    payments = refl;
    linked = linked;
  }

  linked_already :
      (id other : ℕ)
      → row.1.return_id ≡ some other
      → not (other == id) ≡ false
      → link_return (some id) row db ≡ ok tt db
  unfolding link_to
  linked_already id other had same = ap (λ old. link_to id row old db) had ∙ rw same refl

  link_to-Relinked :
      (id : ℕ) (old : Option ℕ)
      → row.1.return_id ≡ old
      → Ends (λ _ t. Relinked payment_id key (some id) row db t) AnyError (link_to id row old db)
  unfolding link_to
  link_to-Relinked id (some other) had = elim (Bool-cases (not (other == id))) [
    | inl apart ↦ rw (apart, Ends) tt
    | inr same ↦ rw (same, Ends) (as_it_was (some id) (linked_already id other had same))
  ]
  link_to-Relinked id none had =
      Ends-guard (λ _ t. Relinked payment_id key (some id) row db t) AnyError db
        (is_some row.1.processed_at) _ _ (λ _. tt)
        (λ _. record {
          refund_row = with_return id row.1;
          found = find_refund-modify payment_id key id row db.refunds d found;
          amount = refl;
          reason = refl;
          payments = refl;
          linked =
              ap (λ test. raise_if test refund_linked_elsewhere (set_return row.0 id db))
                (same_not id);
        })

  link_return-Relinked :
      (asked : Option ℕ)
      → Ends (λ _ t. Relinked payment_id key asked row db t) AnyError (link_return asked row db)
  link_return-Relinked none = as_it_was none refl
  link_return-Relinked (some id) = link_to-Relinked id row.1.return_id refl

pub same_optional_refl : (text : Text) → same_optional (some text) (some text) ≡ true
unfolding same_optional
same_optional_refl text = same_text_refl text

made_key :
    (payment_id : ℕ) (key : Text) (request : RefundRequest) (return_id : Option ℕ)
    → request.idempotency_key ≡ some key
    → has_key payment_id key (new_refund payment_id request return_id) ≡ true
made_key payment_id key request return_id keyed = rw keyed (ground (arith, same_optional_refl key))

new_refund-linked :
    (payment_id : ℕ) (request : RefundRequest) (asked : Option ℕ) (id : ℕ) (t : Db)
    → link_return asked (id, new_refund payment_id request asked) t ≡ ok tt t
unfolding link_to
new_refund-linked payment_id request none id t = refl
new_refund-linked payment_id request (some wanted) id t =
    ap (λ test. raise_if test refund_linked_elsewhere t) (same_not wanted)

module _ (payment_id : ℕ) (key : Text) (request : RefundRequest) (return_id : Option ℕ)
    (keyed : request.idempotency_key ≡ some key) where
  -- The key has made this refund, with the request's details and return.
  pub record Held (id : ℕ) (db : Db) : Type 0 where
    pub payment : Payment
    pub paid : lookup payment_id db.payments ≡ some payment
    pub refund_row : Refund
    pub found : find_refund payment_id key db.refunds ≡ some (id, refund_row)
    pub same_amount : (refund_row.amount == request.amount) ≡ true
    pub same_reason : same_optional refund_row.reason (some request.reason) ≡ true
    pub linked : link_return return_id (id, refund_row) db ≡ ok tt db

  found_by_key :
      (rows : List RefundRow) (result : Option RefundRow)
      → find_refund payment_id key rows ≡ result
      → find_request payment_id request.idempotency_key rows ≡ result
  found_by_key rows result e = rw keyed e

  Held-retry : (id : ℕ) (db : Db) → Held id db → refund payment_id request return_id db ≡ ok id db
  unfolding refund reuse_request
  Held-retry id db h =
      rw (h.paid, ◌>>=◌)
        (rw (found_by_key db.refunds (some (id, h.refund_row)) h.found)
          (rw (◌>>◌, h.same_amount, h.same_reason) (rw (◌>>◌, h.linked) refl)))

  module _ (db : Db) (payment : Payment) (paid : lookup payment_id db.payments ≡ some payment) where
    reuse_request-Held :
        (row : RefundRow)
        → HasDistinctKeys db.refunds
        → find_refund payment_id key db.refunds ≡ some row
        → Ends (λ id db'. Held id db') AnyError (reuse_request request return_id row db)
    unfolding reuse_request
    reuse_request-Held row d found =
        let differs : Bool =
          not (row.1.amount == request.amount)
          || not (same_optional row.1.reason (some request.reason)) in
        Ends-guard (λ id db'. Held id db') AnyError db differs _ _ (λ _. tt)
          (λ agreed.
            Ends-then (link_return return_id row)
              (λ _ t. Relinked payment_id key return_id row db t) (λ id db'. Held id db') AnyError
              db _ (link_return-Relinked payment_id key row db d found return_id)
              (λ _ t r. record {
                payment = payment;
                paid = rw r.payments paid;
                refund_row = r.refund_row;
                found = r.found;
                same_amount = rw r.amount (ground arith);
                same_reason = rw r.reason (ground arith);
                linked = r.linked;
              }))

    request_new-Held :
        Below db.next_id db.refunds
        → find_refund payment_id key db.refunds ≡ none
        → Ends
            (λ id db'. Held id db')
            AnyError
            (request_new payment_id request return_id payment db)
    unfolding request_new
    request_new-Held fresh unused =
        let made : Refund = new_refund payment_id request return_id in
        Ends-guard P AnyError db (not (is_completed payment.status)) _ _ (λ _. tt)
          (λ _.
            Ends-guard P AnyError db (not (same_text payment.currency pkr)) _ _ (λ _. tt)
              (λ _.
                Ends-guard P AnyError db
                  (is_other request.expected_remaining
                    (payment.amount - total_refunded payment_id db))
                  _ _ (λ _. tt)
                  (λ _.
                    Ends-guard P AnyError db
                      (ltb payment.amount (request.amount + total_refunded payment_id db)) _ _
                      (λ _. tt)
                      (λ _. record {
                        payment = payment;
                        paid = paid;
                        refund_row = made;
                        found = rw (insert-append db.next_id made db.refunds fresh) (
                            find_refund-append payment_id key (db.next_id, made) db.refunds unused
                              (made_key payment_id key request return_id keyed));
                        same_amount = ground arith;
                        same_reason = same_optional_refl request.reason;
                        linked =
                            new_refund-linked payment_id request return_id db.next_id
                              (store_refund payment_id request return_id db);
                      }))))
      where
        P : ℕ → Db → Type 0
        P id db' = Held id db'

-- Where refunds have distinct identifiers below the next one, a request with a key that goes through is, sent again, answered with the same refund, and nothing
-- changes: no second refund is made, no matter how much of the payment is left by then.
pub refund_retry :
    (payment_id : ℕ) (key : Text) (request : RefundRequest) (return_id : Option ℕ) (db : Db)
    → request.idempotency_key ≡ some key
    → Below db.next_id db.refunds
    → HasDistinctKeys db.refunds
    → Ends
        (λ id db'. refund payment_id request return_id db' ≡ ok id db')
        AnyError
        (refund payment_id request return_id db)
unfolding refund
refund_retry payment_id key request return_id db keyed fresh d =
    Ends-require Q AnyError db (lookup payment_id db.payments) _ _ (λ _. tt)
      (λ payment paid.
        Ends-weaken P Q AnyError AnyError
          (reuse_or_request payment_id request return_id payment
            (find_request payment_id request.idempotency_key db.refunds) db)
          (elim (Option-cases (find_refund payment_id key db.refunds)) [
            | inl unused ↦
                rw (found_by_key payment_id key request return_id keyed db.refunds none unused) (
                  request_new-Held payment_id key request return_id keyed db payment paid fresh
                    unused)
            | inr (row, used) ↦
                rw (found_by_key payment_id key request return_id keyed db.refunds (some row) used)
                  (reuse_request-Held payment_id key request return_id keyed db payment paid row d
                    used)
          ])
          (λ id db' h. Held-retry payment_id key request return_id keyed id db' h) (λ _ _. tt))
  where
    P : ℕ → Db → Type 0
    P id db' = Held payment_id key request return_id keyed id db'

    Q : ℕ → Db → Type 0
    Q id db' = refund payment_id request return_id db' ≡ ok id db'
