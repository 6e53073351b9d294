-- ===== src/Returns/Refunded.antt =====
-- A refund that is requested for a return changes no return.
use drip_marketplace.Prelude.{ℕ, ◌≤◌, ◌≡◌, ap, ◌∙◌, not, some, ltb}
use drip_marketplace.Db.{
  Db, ReturnStatus, Ends, Ends-guard, Ends-require, Ends-weaken, lookup, Below-le,
}
use drip_marketplace.Commission.Refund.Allocated.{AnyError}
use drip_marketplace.Commission.Ledger.Charged.{Books}
use drip_marketplace.Commission.Settle.Once.{Books-tables}
use drip_marketplace.Payments.{is_other, refund}
use drip_marketplace.Payments.Frame.{OnlyRefunds, refund-OnlyRefunds}
use drip_marketplace.Returns.{ReturnReview, has_status, is_other_return}
use drip_marketplace.Returns.Request.{find_item}
use drip_marketplace.Returns.Refund.{
  load_items, refund_amount, reason_or_default, is_bad_request, return_request, request_refund,
  process_refund,
}
use drip_marketplace.Returns.Steps.{Move-like, view, status_in, ReturnBooks, Handled, Handled-refl}

-- Only the returns, the orders and the identifiers in use matter.
pub Handled-like :
    (db t u : Db)
    → Handled db t
    → u.returns ≡ t.returns
    → u.orders ≡ t.orders
    → t.next_id ≤ u.next_id
    → (Books t → Books u)
    → Handled db u
unfolding find_item
Handled-like db t u h same orders later accounts = record {
  books = record {
    fresh = rw same (Below-le t.next_id u.next_id t.returns later h.books.fresh);
    distinct = rw same h.books.distinct;
    items_distinct = rw same h.books.items_distinct;
    within = λ i. rw (same, orders) (h.books.within i);
  };
  follow = rw same h.follow;
  move =
      Move-like (view db) (view t) (view u) h.move
        (λ k. ap (λ rows. status_in (lookup k rows)) same);
  orders = orders ∙ h.orders;
  accounts = λ a. accounts (h.accounts a);
}

pub process_refund-Handled :
    (id : ℕ) (review : ReturnReview) (db : Db)
    → ReturnBooks db
    → Ends (λ _ db'. Handled db db') AnyError (process_refund id review db)
unfolding process_refund request_refund
process_refund-Handled id review db b =
    Ends-require Ok AnyError db (lookup id db.returns) _ _ (λ _. tt)
      (λ r _.
        Ends-guard Ok AnyError db (not (has_status ReturnStatus.received r)) _ _ (λ _. tt)
          (λ _.
            Ends-require Ok AnyError db (lookup r.order_id db.payments) _ _ (λ _. tt)
              (λ payment _.
                Ends-require Ok AnyError db (lookup r.order_id db.orders) _ _ (λ _. tt)
                  (λ order _.
                    Ends-require Ok AnyError db (load_items r.items db) _ _ (λ _. tt)
                      (λ items _.
                        Ends-guard Ok AnyError db (not (ltb 0 order.subtotal)) _ _ (λ _. tt)
                          (λ _.
                            let amount = refund_amount items order in
                            Ends-guard Ok AnyError db (is_other_return review r) _ _ (λ _. tt)
                              (λ _.
                                Ends-guard Ok AnyError db
                                  (is_other review.expected_refund_amount amount) _ _ (λ _. tt)
                                  (λ _.
                                    Ends-guard Ok AnyError db
                                      (is_bad_request amount (reason_or_default review.admin_note))
                                      _ _ (λ _. tt)
                                      (λ _.
                                        let request = return_request id amount review.admin_note in
                                        Ends-weaken (λ _ t. OnlyRefunds db t) Ok AnyError AnyError
                                          (refund r.order_id request (some id) db)
                                          (refund-OnlyRefunds db r.order_id request (some id))
                                          (λ _ t o.
                                            Handled-like db db t (Handled-refl db b)
                                              (ap (λ (d : Db). d.returns) o.frame)
                                              (ap (λ (d : Db). d.orders) o.frame) o.later
                                              (λ a.
                                                Books-tables db t a
                                                  (ap (λ (d : Db). d.ledgers) o.frame)
                                                  (ap (λ (d : Db). d.allocations) o.frame)))
                                          (λ _ _. tt))))))))))
  where
    Ok : ℕ → Db → Type 0
    Ok _ db' = Handled db db'
