-- ===== src/Payments/Confirm/Confirmed.antt =====
-- A refund is confirmed once: its units are back in the stock, its return and its payment follow, and the
-- sellers are charged.
use drip_marketplace.Prelude.{
  ℕ, ◌≡◌, refl, ◌⊎◌, inl, inr, Bool, true, false, Option, some, List, leb, is_some, if◌then◌else◌,
  Bool-cases,
}
use drip_marketplace.Db.{
  Db, Text, ok, err, refund_confirmed_differently, Refund, Return, Payment, Ends, Ends-guard,
  Ends-require, Ends-weaken, lookup, lookup-modify_self, modify, ◌>>=◌, ◌>>◌,
}
use drip_marketplace.Texts.{strip, same_optional}
use drip_marketplace.Commission.Ledger.Charged.{Books}
use drip_marketplace.Commission.Refund.Allocated.{AnyError}
use drip_marketplace.Payments.Collection.{is_bad_collection}
use drip_marketplace.Payments.Retried.{same_optional_refl}
use drip_marketplace.Payments.Confirm.{
  ConfirmReview, linked_return, confirmed, total_confirmed, refunded_payment, confirm_now,
  confirmed_before, confirm_refund,
}
use drip_marketplace.Payments.Confirm.Restocked.{}
use drip_marketplace.Payments.Confirm.Recorded.{Confirmed, confirm_now-Confirmed}

-- The refund is confirmed with this reference, and its payment is there.
pub record HasReference (reference : Text) (id : ℕ) (db : Db) : Type 0 where
  pub row : Refund
  pub found : lookup id db.refunds ≡ some row
  pub payment : Payment
  pub paid : lookup row.order_id db.payments ≡ some payment
  pub done : is_some row.processed_at ≡ true
  pub same : same_optional row.gateway_ref (some (strip reference)) ≡ true

HasReference-again :
    (now id admin : ℕ) (reference : Text) (review : ConfirmReview) (db : Db)
    → is_bad_collection reference ≡ false
    → HasReference reference id db
    → confirm_refund now id admin reference review db ≡ ok tt db
unfolding confirm_refund confirmed_before
HasReference-again now id admin reference review db good h =
    rw (◌>>◌, ◌>>=◌, good) (rw (h.found, h.paid) (rw (h.done, h.same) refl))

confirmed_before_same :
    (reference : Text) (r : Refund) (db : Db)
    → same_optional r.gateway_ref (some reference) ≡ true
    → confirmed_before reference r db ≡ ok tt db
unfolding confirmed_before
confirmed_before_same reference r db same = rw same refl

confirmed_before_other :
    (reference : Text) (r : Refund) (db : Db)
    → same_optional r.gateway_ref (some reference) ≡ false
    → confirmed_before reference r db ≡ err refund_confirmed_differently
unfolding confirmed_before
confirmed_before_other reference r db different = rw different refl

still_paid :
    (payment_id : ℕ) (whole : Bool) (payment : Payment) (rows : List (ℕ × Payment))
    → lookup payment_id rows ≡ some payment
    → (p : Payment) × (lookup payment_id
          (if whole then modify payment_id refunded_payment rows else rows)
        ≡ some p)
still_paid payment_id true payment rows e =
    (refunded_payment payment, lookup-modify_self payment_id refunded_payment payment rows e)
still_paid payment_id false payment rows e = (payment, e)

Confirmed-HasReference :
    (now admin id : ℕ) (reference : Text) (r : Refund) (payment : Payment)
    (returned : Option Return) (db db' : Db)
    → lookup r.order_id db.payments ≡ some payment
    → Confirmed now admin (strip reference) id r payment returned db db'
    → HasReference reference id db'
Confirmed-HasReference now admin id reference r payment returned db db' paid c =
    let (p, there) =
      still_paid r.order_id (leb payment.amount (total_confirmed r.order_id db')) payment
        db.payments paid in
    record {
      row = confirmed now admin (strip reference) r;
      found = c.recorded;
      payment = p;
      paid = rw c.payments there;
      done = refl;
      same = same_optional_refl (strip reference);
    }

-- Either the refund was confirmed before and nothing happens, or it is confirmed now.
abbrev pub ConfirmEnds : ℕ → ℕ → ℕ → Text → Db → Db → Type 0
ConfirmEnds now id admin reference db db' =
    (r : Refund) × (payment : Payment) × (lookup id db.refunds ≡ some r)
    × (lookup r.order_id db.payments ≡ some payment)
    × (((is_some r.processed_at ≡ true) × (db' ≡ db))
        ⊎ ((is_some r.processed_at ≡ false)
            × Confirmed now admin (strip reference) id r payment (linked_return r.return_id db) db
                db'))

-- On valid books, a confirmation that goes through either finds the refund confirmed before and changes nothing,
-- or confirms it now: a return that it pays for was received, the refund has the transfer's reference, exactly the units of its return are back in the
-- stock and the return is refunded, what is confirmed of the payment grows by the refund's amount, the payment
-- becomes refunded exactly when that reaches its amount, and the books of the sellers are valid. Confirmed again
-- with the same reference, by whomever and whatever is expected, it changes nothing.
pub confirm_refund-Confirmed :
    (now later id admin other : ℕ) (reference : Text) (review again : ConfirmReview) (db : Db)
    → Books db
    → Ends
        (λ _ db'.
          ConfirmEnds now id admin reference db db'
          × (confirm_refund later id other reference again db' ≡ ok tt db'))
        AnyError
        (confirm_refund now id admin reference review db)
unfolding confirm_refund
confirm_refund-Confirmed now later id admin other reference review again db b =
    Ends-guard Ok AnyError db (is_bad_collection reference) _ _ (λ _. tt)
      (λ good.
        Ends-require Ok AnyError db (lookup id db.refunds) _ _ (λ _. tt)
          (λ r found.
            Ends-require Ok AnyError db (lookup r.order_id db.payments) _ _ (λ _. tt)
              (λ payment paid. elim (Bool-cases (is_some r.processed_at)) [
                | inl done ↦ rw done (before r payment good found paid done)
                | inr waiting ↦ rw waiting (
                    Ends-weaken
                      (λ _ db'.
                        Confirmed now admin (strip reference) id r payment
                          (linked_return r.return_id db) db db')
                      Ok AnyError AnyError
                      (confirm_now now id admin (strip reference) review r
                        (linked_return r.return_id db) payment db)
                      (confirm_now-Confirmed now admin (strip reference) id r payment
                        (linked_return r.return_id db) db b found waiting review)
                      (λ _ db' c. (
                        (r, payment, found, paid, inr (waiting, c)),
                        HasReference-again later id other reference again db' good (
                            Confirmed-HasReference now admin id reference r payment
                              (linked_return r.return_id db) db db' paid c),
                      ))
                      (λ _ _. tt))
              ])))
  where
    Ok : Unit {0} → Db → Type 0
    Ok _ db' =
        ConfirmEnds now id admin reference db db'
        × (confirm_refund later id other reference again db' ≡ ok tt db')

    before :
        (r : Refund) (payment : Payment)
        → is_bad_collection reference ≡ false
        → lookup id db.refunds ≡ some r
        → lookup r.order_id db.payments ≡ some payment
        → is_some r.processed_at ≡ true
        → Ends Ok AnyError (confirmed_before (strip reference) r db)
    before r payment good found paid done =
        elim (Bool-cases (same_optional r.gateway_ref (some (strip reference)))) [
          | inr different ↦ rw (confirmed_before_other (strip reference) r db different) tt
          | inl same ↦ rw (confirmed_before_same (strip reference) r db same) (
            (r, payment, found, paid, inl (done, refl)),
            HasReference-again later id other reference again db good (record {
              row = r;
              found = found;
              payment = payment;
              paid = paid;
              done = done;
              same = same;
            }),
          )
        ]
