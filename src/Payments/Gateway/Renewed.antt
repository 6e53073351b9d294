-- ===== src/Payments/Gateway/Renewed.antt =====
-- A payment that is tried again is paid only when the gateway says so.
use drip_marketplace.Prelude.{
  ℕ, ◌≡◌, refl, inl, inr, Bool, true, false, not, ◌&&◌, Option, none, some, arith, ltb, is_some,
  Bool-cases,
}
use drip_marketplace.Db.{
  Db, Text, Order, Payment, PaymentMethod, PaymentStatus, Ends, Ends-bind, Ends-guard, raise_if,
  gateway_unavailable, ◌>>◌, lookup,
}
use drip_marketplace.Texts.{same_text}
use drip_marketplace.Commission.Refund.Allocated.{AnyError}
use drip_marketplace.Orders.{authorized_order}
use drip_marketplace.Orders.Place.{is_payfast}
use drip_marketplace.Orders.Expiry.{is_cod}
use drip_marketplace.Payments.Gateway.{Gateway}
use drip_marketplace.Payments.Gateway.Reconcile.{
  payfast, is_paid, awaits_payment, Reconciled, active_attempt, reconcile_payfast,
}
use drip_marketplace.Payments.Gateway.Checkout.{Answer, start_payfast, initiate}
use drip_marketplace.Payments.Gateway.Retry.{
  is_failed, has_failed, is_confirmed_failure, restart, retry_online, is_open_row, is_stuck,
  switch_payment, switch_method, retry_switched, retry_by, retry,
}
use drip_marketplace.Payments.Gateway.Paid.{
  Quiet, Quiet-trans, Quiet-modify, Gatewayed, Quiet-Gatewayed, Gatewayed-then,
}
use drip_marketplace.Payments.Gateway.Proven.{reconcile_payfast-IsReconciled}
use drip_marketplace.Payments.Gateway.Evidence.{IsReconciled, active_attempt_same}
use drip_marketplace.Payments.Gateway.Started.{
  IsOpen, authorized_same, start_payfast-Quiet, initiate-Quiet,
}

failed_unpaid : (s : PaymentStatus) → is_failed s ≡ true → is_paid s ≡ false
failed_unpaid PaymentStatus.failed e = refl
failed_unpaid PaymentStatus.pending e = absurd (ground arith)
failed_unpaid PaymentStatus.processing e = absurd (ground arith)
failed_unpaid PaymentStatus.completed e = absurd (ground arith)
failed_unpaid PaymentStatus.refunded e = absurd (ground arith)

is_open_row-IsOpen :
    (id : ℕ) (row : Option Payment) (db : Db)
    → lookup id db.payments ≡ row
    → is_open_row row ≡ true
    → IsOpen id db.payments
is_open_row-IsOpen id none db e h p there = absurd (ground arith)
is_open_row-IsOpen id (some payment) db e h p there =
    let eq : payment ≡ p = ground (arith, e, there) in rw (← eq) (open_status payment.status h)
  where
    open_status :
        (s : PaymentStatus)
        → is_open_row (some (record payment { status = s })) ≡ true
        → is_paid s ≡ false
    open_status PaymentStatus.failed e = refl
    open_status PaymentStatus.pending e = refl
    open_status PaymentStatus.processing e = absurd (ground arith)
    open_status PaymentStatus.completed e = absurd (ground arith)
    open_status PaymentStatus.refunded e = absurd (ground arith)

module _ (now id : ℕ) (user_id : Option ℕ) (guest_token : Option Bool) (method : PaymentMethod)
    (address : Text) (gateway : Gateway) (gateway_open : Bool) (db : Db) where
  abbrev Ok : Answer (Option ℕ) → Db → Type 0
  Ok _ u = Gatewayed gateway db u

  -- The failure that is confirmed is that of this payment.
  failed_now :
      (result : Reconciled) (t : Db)
      → IsReconciled gateway id result db t
      → is_confirmed_failure result ≡ true
      → IsOpen id t.payments
  failed_now result t h e p there =
      let (q, found, status) = h.local in
      let eq : q ≡ p = ground (arith, found, there) in
      rw (← eq) (rw status (failed_unpaid result.local_status (ground arith)))

  restart-Gatewayed :
      (result : Reconciled) (t : Db)
      → IsReconciled gateway id result db t
      → Ends Ok AnyError (restart id address gateway_open result t)
  restart-Gatewayed result t h = elim (Bool-cases (is_confirmed_failure result)) [
    | inr unsure ↦ rw unsure h.gatewayed
    | inl confirmed ↦ rw confirmed (
        Ends-bind (raise_if (not gateway_open) gateway_unavailable >> start_payfast id address)
          (λ _ u. Quiet t.payments u.payments) Ok AnyError t _
          (Ends-guard (λ _ u. Quiet t.payments u.payments) AnyError t (not gateway_open) _ _
            (λ _. tt) (λ _. start_payfast-Quiet id address t (failed_now result t h confirmed)))
          (λ _ u quiet. Gatewayed-then gateway db t u h.gatewayed quiet))
  ]

  retry_online-Gatewayed :
      (payment : Payment)
      → Ends Ok AnyError (retry_online now id method address gateway gateway_open payment db)
  unfolding retry_online
  retry_online-Gatewayed payment =
      Ends-guard Ok AnyError db (not (is_payfast method)) _ _ (λ _. tt)
        (λ _.
          Ends-guard Ok AnyError db (not (is_failed payment.status)) _ _ (λ _. tt)
            (λ _.
              Ends-bind (active_attempt id) (λ _ t. t ≡ db) Ok AnyError db _
                (active_attempt_same id db)
                (λ attempt t same. rw same (
                  Ends-guard Ok AnyError db (not (has_failed attempt)) _ _ (λ _. tt)
                    (λ _.
                      Ends-bind (reconcile_payfast now id none gateway)
                        (λ a u. IsReconciled gateway id a db u) Ok AnyError db _
                        (reconcile_payfast-IsReconciled now id none gateway db)
                        (λ result u h. restart-Gatewayed result u h))))))

  switch_method-Quiet :
      IsOpen id db.payments → Quiet db.payments (switch_method id method db).payments
  switch_method-Quiet unpaid = Quiet-modify id (switch_payment method) db.payments (λ p there.
      record {
        amount = refl;
        currency = refl;
        reference = refl;
        open_before = unpaid p there;
        open_after = refl;
      })

  retry_switched-Gatewayed :
      (order : Order) (row : Option Payment)
      → lookup id db.payments ≡ row
      → Ends Ok AnyError
          (retry_switched id user_id guest_token method address gateway_open order row db)
  unfolding retry_switched
  retry_switched-Gatewayed order row e =
      Ends-guard Ok AnyError db (not (is_open_row row)) _ _ (λ _. tt)
        (λ opened.
          Ends-guard Ok AnyError db (is_stuck method (is_some (lookup id db.payloads)) row) _ _
            (λ _. tt)
            (λ _.
              Ends-guard Ok AnyError db
                (is_cod method && ltb db.settings.max_cod_order_amount order.total) _ _ (λ _. tt)
                (λ _.
                  Ends-guard Ok AnyError db (is_payfast method && not gateway_open) _ _ (λ _. tt)
                    (λ _.
                      let switched : Db = switch_method id method db in
                      let quiet : Quiet db.payments switched.payments =
                        switch_method-Quiet (is_open_row-IsOpen id row db e (ground arith)) in
                      Ends-bind (initiate id user_id guest_token address gateway_open)
                        (λ _ u. Quiet switched.payments u.payments) Ok AnyError switched _
                        (initiate-Quiet id user_id guest_token address gateway_open switched)
                        (λ _ u next.
                          Quiet-Gatewayed gateway db u
                            (Quiet-trans db.payments switched.payments u.payments quiet next))))))

  retry_by-Gatewayed :
      (order : Order) (row : Option Payment)
      → lookup id db.payments ≡ row
      → Ends Ok AnyError
          (retry_by now id user_id guest_token method address gateway gateway_open order row db)
  retry_by-Gatewayed order none e = retry_switched-Gatewayed order none e
  retry_by-Gatewayed order (some payment) e = elim (Bool-cases (same_text payment.method payfast)) [
    | inl online ↦ rw online (retry_online-Gatewayed payment)
    | inr other ↦ rw other (retry_switched-Gatewayed order (some payment) e)
  ]

  pub retry-Gatewayed :
      Ends Ok AnyError (retry now id user_id guest_token method address gateway gateway_open db)
  unfolding retry
  retry-Gatewayed =
      Ends-bind (authorized_order id user_id guest_token) (λ _ t. t ≡ db) Ok AnyError db _
        (authorized_same id user_id guest_token db)
        (λ order t same. rw same (
          Ends-guard Ok AnyError db (not (awaits_payment order.status)) _ _ (λ _. tt)
            (λ _. retry_by-Gatewayed order (lookup id db.payments) refl)))
