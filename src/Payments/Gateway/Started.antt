-- ===== src/Payments/Gateway/Started.antt =====
-- Payments begin, begin again and are notified of: nothing is paid but by a reconciliation.
use drip_marketplace.Prelude.{
  ℕ, ◌≡◌, refl, inl, inr, Bool, false, not, ◌&&◌, ◌||◌, Option, none, some, List, arith, ◌==◌,
  is_some, Bool-cases, if◌then◌else◌,
}
use drip_marketplace.Db.{
  Db, Text, Order, Payment, Ends, Ends-bind, Ends-then, Ends-guard, Ends-require, Ends-weaken,
  Error, pure, or_raise, not_found_order, lookup, lookup-insert_self,
}
use drip_marketplace.Texts.{same_text}
use drip_marketplace.Commission.Refund.Allocated.{AnyError}
use drip_marketplace.Orders.{allowed_order, token_matches, authorized_order}
use drip_marketplace.Orders.Place.{is_payfast}
use drip_marketplace.Orders.Expiry.{is_cod}
use drip_marketplace.Payments.Collection.{is_pending}
use drip_marketplace.Payments.Gateway.Reconcile.{PaymentRow, is_paid, awaits_payment, attempt_of}
use drip_marketplace.Payments.Gateway.Checkout.{
  is_payable, is_paid_row, new_payment, payment_or_new, create_payment, pending_payment,
  store_claim, start_payfast, start_online, initiate, method_text, is_attempt, is_starting,
  finish_start,
}
use drip_marketplace.Payments.Gateway.Paid.{
  Quiet, Quiet-refl, Quiet-trans, Quiet-modify, Quiet-insert,
}

or_raise_same :
    {A : Type 0}
    → (row : Option A) (e : Error) (db : Db) → Ends (λ _ t. t ≡ db) AnyError (or_raise row e db)
or_raise_same none e db = tt
or_raise_same (some a) e db = refl

pub authorized_same :
    (id : ℕ) (user_id : Option ℕ) (guest_token : Option Bool) (db : Db)
    → Ends (λ _ t. t ≡ db) AnyError (authorized_order id user_id guest_token db)
unfolding authorized_order
authorized_same id user_id guest_token db =
    Ends-guard (λ _ t. t ≡ db) AnyError db (not (is_some user_id) && not (is_some guest_token)) _ _
      (λ _. tt)
      (λ _.
        or_raise_same (allowed_order user_id (token_matches guest_token) (lookup id db.orders))
          not_found_order db)

abbrev pub IsOpen : ℕ → List PaymentRow → Type 0
IsOpen id t = (p : Payment) → lookup id t ≡ some p → is_paid p.status ≡ false

-- A claim on a payment that is not paid.
pub claim-Quiet :
    (id : ℕ) (address : Text) (db : Db)
    → IsOpen id db.payments
    → Quiet db.payments (store_claim id address db).payments
claim-Quiet id address db unpaid_now = Quiet-modify id pending_payment db.payments (λ p there.
    record {
      amount = refl;
      currency = refl;
      reference = refl;
      open_before = unpaid_now p there;
      open_after = refl;
    })

pub start_payfast-Quiet :
    (id : ℕ) (address : Text) (db : Db)
    → IsOpen id db.payments
    → Ends (λ _ u. Quiet db.payments u.payments) AnyError (start_payfast id address db)
unfolding start_payfast
start_payfast-Quiet id address db unpaid_now = claim-Quiet id address db unpaid_now

start_online-Quiet :
    (id : ℕ) (address : Text) (gateway_open : Bool) (payment : Payment) (db : Db)
    → IsOpen id db.payments
    → Ends
        (λ _ u. Quiet db.payments u.payments)
        AnyError
        (start_online id address gateway_open payment db)
unfolding start_payfast
start_online-Quiet id address gateway_open payment db unpaid_now =
    Ends-guard (λ _ u. Quiet db.payments u.payments) AnyError db (not gateway_open) _ _ (λ _. tt)
      (λ _.
        Ends-guard (λ _ u. Quiet db.payments u.payments) AnyError db
          (not (is_pending payment.status) || is_some (lookup id db.payloads)) _ _ (λ _. tt)
          (λ _. claim-Quiet id address db unpaid_now))

-- The payment is created if it is not there, and is not paid.
create_payment-Quiet :
    (id : ℕ) (order : Order) (row : Option Payment) (db : Db)
    → lookup id db.payments ≡ row
    → is_paid_row row ≡ false
    → Ends
        (λ _ u. Quiet db.payments u.payments × IsOpen id u.payments)
        AnyError
        (create_payment id order row db)
create_payment-Quiet id order none db e unpaid = (
  Quiet-insert id (new_payment order) db.payments e refl refl,
  λ p there.
      let eq : new_payment order ≡ p =
        ground (arith, lookup-insert_self id (new_payment order) db.payments, there) in
      rw (← eq) refl,
)
create_payment-Quiet id order (some payment) db e unpaid = (
  Quiet-refl db.payments,
  λ p there. let eq : payment ≡ p = ground (arith, e, there) in rw (← eq) unpaid,
)

module _ (id : ℕ) (user_id : Option ℕ) (guest_token : Option Bool) (address : Text)
    (gateway_open : Bool) where
  pub initiate-Quiet :
      (db : Db)
      → Ends
          (λ _ u. Quiet db.payments u.payments)
          AnyError
          (initiate id user_id guest_token address gateway_open db)
  unfolding initiate
  initiate-Quiet db =
      Ends-bind (authorized_order id user_id guest_token) (λ _ t. t ≡ db) Ok AnyError db _
        (authorized_same id user_id guest_token db)
        (λ order t same. rw same (
          Ends-guard Ok AnyError db
            (not (is_payfast order.payment_method) && not (is_cod order.payment_method)) _ _
            (λ _. tt)
            (λ _.
              Ends-guard Ok AnyError db (not (is_payable order.status)) _ _ (λ _. tt)
                (λ _.
                  Ends-guard Ok AnyError db (is_paid_row (lookup id db.payments)) _ _ (λ _. tt)
                    (λ unpaid.
                      Ends-then (create_payment id order (lookup id db.payments))
                        (λ _ u. Quiet db.payments u.payments × IsOpen id u.payments) Ok AnyError db
                        _ (create_payment-Quiet id order (lookup id db.payments) db refl unpaid)
                        (λ _ u made.
                          Ends-guard Ok AnyError u
                            (not (
                                (payment_or_new order (lookup id db.payments)).amount
                                == order.total)
                              || not (
                                  same_text (payment_or_new order (lookup id db.payments)).method
                                    (method_text order.payment_method)))
                            _ _ (λ _. tt)
                            (λ _.
                              online order (payment_or_new order (lookup id db.payments)) u made.0
                                made.1)))))))
    where
      Ok : Option ℕ → Db → Type 0
      Ok _ u = Quiet db.payments u.payments

      online :
          (order : Order) (payment : Payment) (u : Db)
          → Quiet db.payments u.payments
          → IsOpen id u.payments
          → Ends Ok AnyError (
              (if is_cod order.payment_method
                  then pure none
                  else start_online id address gateway_open payment)
                u)
      online order payment u quiet unpaid_now = elim (Bool-cases (is_cod order.payment_method)) [
        | inl cash ↦ rw cash quiet
        | inr card ↦ rw card (
            Ends-weaken (λ _ v. Quiet u.payments v.payments) Ok AnyError AnyError
              (start_online id address gateway_open payment u)
              (start_online-Quiet id address gateway_open payment u unpaid_now)
              (λ _ v next. Quiet-trans db.payments u.payments v.payments quiet next) (λ _ _. tt))
      ]

  pub finish_start-Quiet :
      (attempt : ℕ) (has_token : Bool) (db : Db)
      → Ends
          (λ _ u. Quiet db.payments u.payments)
          AnyError
          (finish_start id user_id guest_token attempt has_token db)
  unfolding finish_start
  finish_start-Quiet attempt has_token db =
      Ends-guard Ok AnyError db (not has_token) _ _ (λ _. tt)
        (λ _.
          Ends-bind (authorized_order id user_id guest_token) (λ _ t. t ≡ db) Ok AnyError db _
            (authorized_same id user_id guest_token db)
            (λ order t same. rw same (
              Ends-require Ok AnyError db (lookup id db.payments) _ _ (λ _. tt)
                (λ payment _.
                  Ends-require Ok AnyError db (lookup attempt db.attempts) _ _ (λ _. tt)
                    (λ claim _.
                      Ends-guard Ok AnyError db
                        (not (awaits_payment order.status)
                          || (not (is_pending payment.status)
                              || (not (is_attempt attempt (attempt_of (lookup id db.payloads)))
                                  || not (is_starting claim.state))))
                        _ _ (λ _. tt) (λ _. Quiet-refl db.payments))))))
    where
      Ok : Unit {0} → Db → Type 0
      Ok _ u = Quiet db.payments u.payments
