-- ===== src/Payments/Gateway/Notified.antt =====
-- A notification pays nothing itself: it asks the gateway.
use drip_marketplace.Prelude.{
  ℕ, ◌≡◌, refl, inl, inr, Bool, not, ◌&&◌, Option, none, some, is_some, Bool-cases, if◌then◌else◌,
}
use drip_marketplace.Db.{
  Db, Order, Payment, Result, Ends, Ends-bind, Ends-guard, ok, err, reference_taken, lookup,
}
use drip_marketplace.Texts.{same_text, same_optional}
use drip_marketplace.Commission.Refund.Allocated.{AnyError}
use drip_marketplace.Payments.Gateway.{Gateway}
use drip_marketplace.Payments.Gateway.Reconcile.{
  payfast, is_paid, awaits_payment, is_elsewhere, Reconciled, active_attempt, find_by_reference,
  reconcile_payfast,
}
use drip_marketplace.Payments.Gateway.Checkout.{Answer}
use drip_marketplace.Payments.Gateway.Callback.{
  Notification, reject, order_of, is_stale, is_other_payment, is_confirmed, is_caught, caught,
  try_reconcile, finish_callback, ask_gateway, use_notification, use_unless_taken,
  check_notification, check_online, handle_parsed, handle_payfast_callback,
}
use drip_marketplace.Payments.Gateway.Paid.{Quiet-refl, Gatewayed, Quiet-Gatewayed, Gatewayed-then}
use drip_marketplace.Payments.Gateway.Owners.{Owned, find_by_reference-Owned}
use drip_marketplace.Payments.Gateway.Proven.{reconcile_payfast-IsReconciled}
use drip_marketplace.Payments.Gateway.Evidence.{IsReconciled, active_attempt_same}

module _ (now : ℕ) (gateway : Gateway) (db : Db) where
  abbrev Ok : {A : Type 0} → Answer A → Db → Type 0
  Ok _ u = Gatewayed gateway db u

  untouched : Gatewayed gateway db db
  untouched = Quiet-Gatewayed gateway db db (Quiet-refl db.payments)

  -- Only the log of notifications is written.
  logged : (u : Db) → u.payments ≡ db.payments → Gatewayed gateway db u
  logged u same = Quiet-Gatewayed gateway db u (rw same (Quiet-refl db.payments))

  caught-Gatewayed :
      (id : ℕ) (r : Result Db Reconciled)
      → Ends (λ a u. IsReconciled gateway id a db u) AnyError r
      → Ends Ok AnyError (caught db r)
  caught-Gatewayed id (ok a t) h = h.gatewayed
  caught-Gatewayed id (err e) h = elim (Bool-cases (is_caught e)) [
    | inl business ↦ rw business untouched
    | inr other ↦ rw other tt
  ]

  finish_callback-Gatewayed :
      (n : Notification) (id : ℕ) (answer : Answer Reconciled) (t : Db)
      → Gatewayed gateway db t
      → Ends Ok AnyError (finish_callback n id answer t)
  finish_callback-Gatewayed n id (Answer.raised e) t h =
      Gatewayed-then gateway db t _ h (Quiet-refl t.payments)
  finish_callback-Gatewayed n id (Answer.done result) t h =
      elim (Bool-cases (is_confirmed n result)) [
        | inl confirmed ↦ rw confirmed (Gatewayed-then gateway db t _ h (Quiet-refl t.payments))
        | inr unsure ↦ rw unsure (Gatewayed-then gateway db t _ h (Quiet-refl t.payments))
      ]

  module _ (n : Notification) (id : ℕ) (payment : Payment) (order : Order) where
    ask_gateway-Gatewayed : Ends Ok AnyError (ask_gateway now n gateway id db)
    ask_gateway-Gatewayed =
        Ends-bind (try_reconcile now id (some n.txn_id) gateway) Ok Ok AnyError db
          (finish_callback n id)
          (caught-Gatewayed id (reconcile_payfast now id (some n.txn_id) gateway db)
            (reconcile_payfast-IsReconciled now id (some n.txn_id) gateway db))
          (λ answer t h. finish_callback-Gatewayed n id answer t h)

    use_notification-Gatewayed :
        Ends Ok AnyError (use_notification now n gateway id payment order db)
    unfolding use_notification
    use_notification-Gatewayed = elim (Bool-cases (is_paid payment.status)) [
      | inl paid ↦ elim (Bool-cases (same_optional payment.gateway_reference (some n.txn_id))) [
        | inl same ↦ rw (paid, same) (logged _ refl)
        | inr different ↦ rw (paid, different) (logged _ refl)
      ]
      | inr unpaid ↦ elim (Bool-cases (awaits_payment order.status)) [
        | inl awaiting ↦ rw (unpaid, awaiting) ask_gateway-Gatewayed
        | inr late ↦ rw (unpaid, late) (logged _ refl)
      ]
    ]

    use_unless_taken-Gatewayed :
        Ends Ok AnyError (use_unless_taken now n gateway id payment order db)
    use_unless_taken-Gatewayed =
        Ends-bind (find_by_reference n.txn_id) (λ r t. (t ≡ db) × Owned n.txn_id r db) Ok AnyError
          db _ (find_by_reference-Owned n.txn_id db)
          (λ duplicate t h. rw h.0 (unless_taken duplicate))
      where
        unless_taken :
            (duplicate : Option ℕ)
            → Ends Ok AnyError (
                (if is_elsewhere id duplicate
                    then reject (some id) reference_taken
                    else use_notification now n gateway id payment order)
                  db)
        unless_taken duplicate = elim (Bool-cases (is_elsewhere id duplicate)) [
          | inl taken ↦ rw taken (logged _ refl)
          | inr free ↦ rw free use_notification-Gatewayed
        ]

    check_notification-Gatewayed :
        Ends Ok AnyError (check_notification now n gateway id payment order db)
    unfolding check_notification
    check_notification-Gatewayed =
        Ends-bind (active_attempt id) (λ _ t. t ≡ db) Ok AnyError db _ (active_attempt_same id db)
          (λ attempt t same.
            rw same (elim (Bool-cases (is_stale n.basket (lookup n.basket db.attempts) attempt)) [
              | inl stale ↦ rw stale (logged _ refl)
              | inr current ↦ elim (Bool-cases (is_other_payment n payment order)) [
                | inl different ↦ rw (current, different) (logged _ refl)
                | inr fitting ↦ rw (current, fitting) use_unless_taken-Gatewayed
              ]
            ]))

  check_online-Gatewayed :
      (n : Notification) (id : ℕ) (order : Option Order) (payment : Option Payment)
      → Ends Ok AnyError (check_online now n gateway id order payment db)
  check_online-Gatewayed n id (some order) (some payment) =
      elim (Bool-cases (same_text payment.method payfast)) [
        | inl online ↦ rw online (check_notification-Gatewayed n id payment order)
        | inr other ↦ rw other (logged _ refl)
      ]
  check_online-Gatewayed n id (some order) none = logged _ refl
  check_online-Gatewayed n id none payment = logged _ refl

  handle_parsed-Gatewayed :
      (parsed : Option Notification) → Ends Ok AnyError (handle_parsed now gateway parsed db)
  unfolding handle_parsed
  handle_parsed-Gatewayed none = logged _ refl
  handle_parsed-Gatewayed (some n) =
      let id = order_of n.basket (lookup n.basket db.attempts) in
      Ends-guard Ok AnyError db
        (is_some (lookup n.basket db.attempts) && not (is_some (lookup id db.payments))) _ _
        (λ _. tt) (λ _. check_online-Gatewayed n id (lookup id db.orders) (lookup id db.payments))

  pub handle_payfast_callback-Gatewayed :
      (gateway_open : Bool) (parsed : Option Notification)
      → Ends Ok AnyError (handle_payfast_callback now gateway_open parsed gateway db)
  unfolding handle_payfast_callback
  handle_payfast_callback-Gatewayed gateway_open parsed =
      Ends-guard Ok AnyError db (not gateway_open) _ _ (λ _. tt)
        (λ _. handle_parsed-Gatewayed parsed)
