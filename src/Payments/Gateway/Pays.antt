-- ===== src/Payments/Gateway/Pays.antt =====
-- A reconciliation of what the gateway was paid does go through and does pay.
use drip_marketplace.Prelude.{
  ℕ, ◌*◌, ◌<◌, ◌≡◌, refl, true, false, none, some, [], ◌∷◌, All, arith, ◌==◌,
}
use drip_marketplace.Db.{
  Db, Text, Order, OrderStatus, Payment, PaymentStatus, PaymentAttempt, GatewayPayload, ok, ◌>>=◌,
  lookup,
}
use drip_marketplace.Texts.{is_space, strip, is_blank}
use drip_marketplace.Payments.{pkr}
use drip_marketplace.Wallet.Completion.{same_text_refl}
use drip_marketplace.Payments.Gateway.{Reply, Gateway, text_of, money_matches, ten_to}
use drip_marketplace.Payments.Gateway.Reconcile.{
  AttemptRow, PaymentRow, payfast, active_attempt, find_attempt, find_by_reference, find_duplicate,
  identifiers_match, evidence_matches, Reconciled, lookup_transaction,
}
use drip_marketplace.Payments.Gateway.Due.{IsDue}
use drip_marketplace.Payments.Gateway.Words.{
  PaidWord, paid_reply, owners-nobody, paid_outcome, strip_symbol, text_of-string, currency_is,
  amount_is, not_paid,
}

-- A payment in rupees waits for the gateway, with an attempt to pay it, and the gateway says of that attempt that the
-- amount is paid in a transaction which no payment has.
pub record IsPaidFor (id : ℕ) (reference : Text) (gateway : Gateway) (db : Db) : Type 0 where
  pub order : Order
  pub ordered : lookup id db.orders ≡ some order
  pub awaiting : order.status ≡ OrderStatus.pending_payment
  pub payment : Payment
  pub found : lookup id db.payments ≡ some payment
  pub online : payment.method ≡ payfast
  pub in_rupees : payment.currency ≡ pkr
  pub due : payment.amount ≡ order.total
  pub not_completed : payment.status ≡ PaymentStatus.completed → ⊥
  pub not_refunded : payment.status ≡ PaymentStatus.refunded → ⊥
  pub unnamed : payment.gateway_reference ≡ none
  pub payload : GatewayPayload
  pub kept : lookup id db.payloads ≡ some payload
  pub basket : ℕ
  pub active : payload.active_attempt ≡ some basket
  pub digits_stand : is_space basket ≡ false
  pub attempt : PaymentAttempt
  pub begun : lookup basket db.attempts ≡ some attempt
  pub its_own : attempt.payment_id ≡ id
  pub unresolved : attempt.transaction_id ≡ none
  pub named : is_blank reference ≡ false
  pub stripped : strip reference ≡ reference
  pub unused : All (λ (row : PaymentRow). row.1.gateway_reference ≡ some reference → ⊥) db.payments
  pub word : PaidWord
  pub digits : ℕ
  pub decimals : ℕ
  pub positive : 0 < digits
  pub worth : digits * 100 ≡ payment.amount * ten_to decimals
  pub says :
      gateway (basket ∷ []) reference ≡ some (paid_reply word basket reference digits decimals)

-- The payment and its order after it.
pub record IsPaidNow (now id : ℕ) (reference : Text) (payment : Payment) (order : Order)
    (answer : Reconciled) (u : Db) : Type 0 where
  pub matched : answer.matched ≡ true
  pub status : answer.local_status ≡ PaymentStatus.completed
  pub paid :
      (q : Payment) × (lookup id u.payments ≡ some q)
      × (q.status ≡ PaymentStatus.completed)
      × (q.gateway_reference ≡ some reference)
      × (q.paid_at ≡ some now)
      × (q.amount ≡ payment.amount)
  pub confirmed :
      (o : Order) × (lookup id u.orders ≡ some o)
      × (o.status ≡ OrderStatus.payment_confirmed)
      × (o.total ≡ order.total)

module _ (id : ℕ) (reference : Text) (gateway : Gateway) (db : Db)
    (h : IsPaidFor id reference gateway db) where
  abbrev answered : Reply
  answered = paid_reply h.word h.basket reference h.digits h.decimals

  abbrev row : AttemptRow
  row = (h.basket, h.attempt)

  transaction-reference : text_of answered.transaction_id ≡ reference
  transaction-reference = text_of-string reference h.named h.stripped

  looked_up : lookup_transaction h.payment (some reference) (some row) ≡ reference
  looked_up = rw (h.unnamed, h.named) refl

  active : active_attempt id db ≡ ok (some row) db
  unfolding active_attempt find_attempt
  active =
      let its_own : (h.attempt.payment_id == id) ≡ true = ground (arith, h.its_own) in
      rw (◌>>=◌, h.kept, h.active) (rw (◌>>=◌, h.begun) (rw (◌>>=◌, its_own) refl))

  nobody : find_duplicate (text_of answered.transaction_id) db ≡ ok none db
  unfolding find_by_reference
  nobody =
      rw (transaction-reference, h.named) (rw (owners-nobody reference db.payments h.unused) refl)

  identifiers : identifiers_match id h.payment (some reference) (some row) none answered ≡ true
  unfolding identifiers_match
  identifiers =
      let basket : text_of answered.basket_id ≡ h.basket ∷ [] =
        strip_symbol h.basket h.digits_stand in
      rw (transaction-reference, basket, h.unresolved, h.unnamed, h.named)
        (rw (same_text_refl (h.basket ∷ []), same_text_refl reference) refl)

  money : money_matches answered h.payment.amount h.payment.currency ≡ true
  unfolding money_matches
  money =
      rw
        (
          h.in_rupees,
          amount_is h.payment.amount h.digits h.decimals h.positive h.worth,
          currency_is,
        )
        refl

  evidence : evidence_matches id h.payment h.order (some reference) (some row) none answered ≡ true
  unfolding evidence_matches
  evidence =
      let same : (h.payment.amount == h.order.total) ≡ true = ground (arith, h.due) in
      rw (identifiers, same, money) refl

  abbrev full_evidence : IsDue id (some reference) gateway db
  full_evidence = record {
    order = h.order;
    ordered = h.ordered;
    awaiting = rw h.awaiting refl;
    payment = h.payment;
    found = h.found;
    online = rw h.online (same_text_refl payfast);
    unpaid = not_paid h.payment.status h.not_completed h.not_refunded;
    attempt = some row;
    active = active;
    traceable = rw (looked_up, h.named) refl;
    reply = answered;
    asked = rw looked_up h.says;
    completed = paid_outcome h.word h.basket reference h.digits h.decimals;
    duplicate = none;
    looked_up = nobody;
    evidence = evidence;
  }
