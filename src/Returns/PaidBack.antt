-- ===== src/Returns/PaidBack.antt =====
-- A confirmed refund takes its return from received to refunded, and changes no other.
use drip_marketplace.Prelude.{ℕ, ◌≤◌, ◌≡◌, refl, inl, inr, true, Option, none, some, arith}
use drip_marketplace.Db.{
  Db, Text, ok, Payment, Refund, Return, ReturnStatus, ItemId, Ends, Ends-weaken, lookup,
}
use drip_marketplace.Commission.Refund.Allocated.{AnyError}
use drip_marketplace.Commission.Ledger.Charged.{Books}
use drip_marketplace.Texts.{strip}
use drip_marketplace.Payments.Confirm.{ConfirmReview, linked_return, paid_back, confirm_refund}
use drip_marketplace.Payments.Confirm.Restocked.{returns_back}
use drip_marketplace.Payments.Confirm.Recorded.{Confirmed, WasReceived}
use drip_marketplace.Payments.Confirm.Confirmed.{ConfirmEnds, confirm_refund-Confirmed}
use drip_marketplace.Returns.{has_status}
use drip_marketplace.Returns.Request.{claim_of}
use drip_marketplace.Returns.Decided.{status_of}
use drip_marketplace.Returns.Steps.{
  Step, Follows, ReturnBooks, Handled, Handled-refl, update_return-less,
}
use drip_marketplace.Returns.Refunded.{Handled-like}

same_claim :
    (now : ℕ) (i : ItemId) (q : Return)
    → has_status ReturnStatus.received q ≡ true
    → claim_of i (paid_back now q) ≤ claim_of i q
same_claim now i q received = rw (status_of ReturnStatus.received q received) (ground arith)

paid_back-Follows :
    (now : ℕ) (q : Return) → has_status ReturnStatus.received q ≡ true → Follows q (paid_back now q)
paid_back-Follows now q received = record {
  order_id = refl;
  seller_order_id = refl;
  user_id = refl;
  items = refl;
  step = inr (rw (status_of ReturnStatus.received q received) Step.pay_back);
  dispute = λ d e h. e;
}

module _ (now : ℕ) (db : Db) (b : ReturnBooks db) where
  returns_back-Handled :
      (link : Option ℕ)
      → WasReceived link (linked_return link db)
      → Handled db
          (record db { returns = returns_back now link (linked_return link db) db.returns })
  returns_back-Handled none received = Handled-refl db b
  returns_back-Handled (some id) received = found_or_not (lookup id db.returns) refl
    where
      found_or_not :
          (row : Option Return)
          → lookup id db.returns ≡ row
          → Handled db (record db {
            returns = returns_back now (some id) (linked_return (some id) db) db.returns;
          })
      found_or_not none e = rw e (Handled-refl db b)
      found_or_not (some q) e =
          let got : has_status ReturnStatus.received q ≡ true = received id q refl e in
          rw e (
            update_return-less id (paid_back now) q db e b (paid_back-Follows now q got)
              (λ i. same_claim now i q got))

  Confirmed-Handled :
      (admin id : ℕ) (reference : Text) (r : Refund) (payment : Payment) (db' : Db)
      → Confirmed now admin reference id r payment (linked_return r.return_id db) db db'
      → Handled db db'
  Confirmed-Handled admin id reference r payment db' c =
      Handled-like db
        (record db {
          returns = returns_back now r.return_id (linked_return r.return_id db) db.returns;
        })
        db' (returns_back-Handled r.return_id c.received) c.returns c.orders c.later (λ _. c.books)

  ConfirmEnds-Handled :
      (id admin : ℕ) (reference : Text) (db' : Db)
      → ConfirmEnds now id admin reference db db'
      → Handled db db'
  ConfirmEnds-Handled id admin reference db' (r, payment, found, paid, inl (done, same)) =
      rw same (Handled-refl db b)
  ConfirmEnds-Handled id admin reference db' (r, payment, found, paid, inr (waiting, c)) =
      Confirmed-Handled admin id (strip reference) r payment db' c

  pub confirm_refund-Handled :
      (id admin : ℕ) (reference : Text) (review : ConfirmReview)
      → Books db
      → Ends (λ _ db'. Handled db db') AnyError (confirm_refund now id admin reference review db)
  confirm_refund-Handled id admin reference review a =
      Ends-weaken
        (λ _ db'.
          ConfirmEnds now id admin reference db db'
          × (confirm_refund now id admin reference review db' ≡ ok tt db'))
        (λ _ db'. Handled db db') AnyError AnyError
        (confirm_refund now id admin reference review db)
        (confirm_refund-Confirmed now now id admin admin reference review review db a)
        (λ _ db' c. ConfirmEnds-Handled id admin reference db' c.0) (λ _ _. tt)
