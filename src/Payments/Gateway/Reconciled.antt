-- ===== src/Payments/Gateway/Reconciled.antt =====
-- A reconciliation pays by right only, and never touches what is paid.
use drip_marketplace.Prelude.{
  ℕ, ◌≡◌, refl, ◌∙◌, inl, inr, Bool, true, false, Option, none, some, List, arith, Bool-cases,
}
use drip_marketplace.Db.{
  Never, Db, Text, GatewayAudit, Order, OrderStatus, Payment, Ends, Ends-then, Ends-weaken, modify,
}
use drip_marketplace.Payments.Gateway.{Outcome}
use drip_marketplace.Payments.Gateway.Paid.{}
use drip_marketplace.Payments.Gateway.Reconcile.{
  PaymentRow, AttemptRow, is_paid, awaits_payment, Verdict, verdict, paid_payment, failed_payment,
  apply_verdict, resolves, resolve_attempt, Reconciled, status_after, is_matched, write_audit,
  settle_with,
}

abbrev pub payments_after : ℕ → ℕ → Text → Verdict → List PaymentRow → List PaymentRow
payments_after now id transaction Verdict.pay t = modify id (paid_payment now transaction) t
payments_after now id transaction Verdict.fail t = modify id failed_payment t
payments_after now id transaction _ t = t

abbrev pub confirmed_order : Order → Order
confirmed_order order = record order { status = OrderStatus.payment_confirmed }

abbrev pub orders_after : ℕ → Verdict → List (ℕ × Order) → List (ℕ × Order)
orders_after id Verdict.pay t = modify id confirmed_order t
orders_after id _ t = t

-- The tables after the verdict.
pub record Applied (now id : ℕ) (transaction : Text) (v : Verdict) (db u : Db) : Type 0 where
  pub payments : u.payments ≡ payments_after now id transaction v db.payments
  pub orders : u.orders ≡ orders_after id v db.orders

apply_verdict-Applied :
    (now id : ℕ) (transaction : Text) (v : Verdict) (db : Db)
    → Ends (λ _ u. Applied now id transaction v db u) Never (apply_verdict now id transaction v db)
unfolding apply_verdict
apply_verdict-Applied now id transaction Verdict.mismatch db = record {
  payments = refl;
  orders = refl;
}
apply_verdict-Applied now id transaction Verdict.paid_before db = record {
  payments = refl;
  orders = refl;
}
apply_verdict-Applied now id transaction Verdict.other_reference db = record {
  payments = refl;
  orders = refl;
}
apply_verdict-Applied now id transaction Verdict.pay db = record { payments = refl; orders = refl }
apply_verdict-Applied now id transaction Verdict.review db = record {
  payments = refl;
  orders = refl;
}
apply_verdict-Applied now id transaction Verdict.fail db = record { payments = refl; orders = refl }
apply_verdict-Applied now id transaction Verdict.nothing db = record {
  payments = refl;
  orders = refl;
}

resolve_attempt-same :
    (v : Verdict) (outcome : Outcome) (payment : Payment) (transaction : Text)
    (attempt : Option AttemptRow) (db : Db)
    → Ends
        (λ _ u. (u.payments ≡ db.payments) × (u.orders ≡ db.orders))
        Never
        (resolve_attempt v outcome payment transaction attempt db)
unfolding resolve_attempt
resolve_attempt-same v outcome payment transaction none db = (refl, refl)
resolve_attempt-same v outcome payment transaction (some row) db =
    elim (Bool-cases (resolves v outcome payment row.1)) [
      | inl resolved ↦ rw resolved (refl, refl)
      | inr kept ↦ rw kept (refl, refl)
    ]

-- What is answered.
abbrev pub answer_of : Outcome → Verdict → Payment → Reconciled
answer_of outcome v payment = record {
  outcome = outcome;
  local_status = status_after v payment.status;
  matched = is_matched v;
}

module _ (now id : ℕ) (payment : Payment) (attempt : Option AttemptRow) (outcome : Outcome)
    (transaction : Text) (v : Verdict) (db : Db) where
  abbrev Ok : Reconciled → Db → Type 0
  Ok a u = Applied now id transaction v db u × (a ≡ answer_of outcome v payment)

  pub settle_with-Applied :
      Ends Ok Never (settle_with now id payment attempt outcome transaction v db)
  unfolding settle_with
  settle_with-Applied =
      let audited : Db = write_audit (GatewayAudit.reconciled id (is_matched v)) db in
      Ends-then (apply_verdict now id transaction v) (λ _ t. Applied now id transaction v db t) Ok
        Never audited _
        (Ends-weaken (λ _ t. Applied now id transaction v audited t)
          (λ _ t. Applied now id transaction v db t) Never Never
          (apply_verdict now id transaction v audited)
          (apply_verdict-Applied now id transaction v audited)
          (λ _ t h. record { payments = h.payments; orders = h.orders }) (λ _ e. e))
        (λ _ t h.
          Ends-then (resolve_attempt v outcome payment transaction attempt)
            (λ _ u. (u.payments ≡ t.payments) × (u.orders ≡ t.orders)) Ok Never t _
            (resolve_attempt-same v outcome payment transaction attempt t)
            (λ _ u s. (record { payments = s.0 ∙ h.payments; orders = s.1 ∙ h.orders }, refl)))

-- What the verdicts rest on.
pub verdict-pay :
    (evidence : Bool) (outcome : Outcome) (payment : Payment) (order : Order) (transaction : Text)
    → verdict evidence outcome payment order transaction ≡ Verdict.pay
    → (evidence ≡ true)
      × (outcome ≡ Outcome.completed)
      × (is_paid payment.status ≡ false)
      × (awaits_payment order.status ≡ true)
unfolding verdict
verdict-pay false outcome payment order transaction e = absurd (ground arith)
verdict-pay true Outcome.completed payment order transaction e =
    (refl, refl, ground arith, ground arith)
verdict-pay true Outcome.failed payment order transaction e = absurd (ground arith)
verdict-pay true Outcome.unknown payment order transaction e = absurd (ground arith)

pub verdict-fail :
    (evidence : Bool) (outcome : Outcome) (payment : Payment) (order : Order) (transaction : Text)
    → verdict evidence outcome payment order transaction ≡ Verdict.fail
    → is_paid payment.status ≡ false
unfolding verdict
verdict-fail false outcome payment order transaction e = absurd (ground arith)
verdict-fail true Outcome.completed payment order transaction e = absurd (ground arith)
verdict-fail true Outcome.failed payment order transaction e = ground arith
verdict-fail true Outcome.unknown payment order transaction e = absurd (ground arith)
