-- ===== src/Payments/Gateway/Retry.antt =====
-- A payment is tried again (`retry` of services/payment_service.py).
use drip_marketplace.Prelude.{
  ℕ, Bool, true, false, not, ◌&&◌, ◌||◌, Option, none, some, List, [], ◌∷◌, ltb, ◌==◌, is_some,
  if◌then◌else◌,
}
use drip_marketplace.Db.{
  Tx, pure, raise_if, gets, modify_db, ◌>>=◌, ◌>>◌, Db, Text, Order, OrderStatus, PaymentMethod,
  Payment, PaymentStatus, AttemptState, GatewayPayload, lookup, modify, not_awaiting_payment,
  payment_unresolved, payment_not_retryable, gateway_unavailable, cod_limit,
}
use drip_marketplace.Texts.{same_text}
use drip_marketplace.Orders.{authorized_order}
use drip_marketplace.Orders.Place.{is_payfast}
use drip_marketplace.Orders.Expiry.{is_cod}
use drip_marketplace.Payments.Collection.{is_pending}
use drip_marketplace.Payments.Gateway.{Gateway, Outcome, same_outcome}
use drip_marketplace.Payments.Gateway.Reconcile.{
  AttemptRow, payfast, active_attempt, awaits_payment, Reconciled, reconcile_payfast,
}
use drip_marketplace.Payments.Gateway.Checkout.{Answer, method_text, start_payfast, initiate}

abbrev pub is_failed : PaymentStatus → Bool
is_failed PaymentStatus.failed = true
is_failed _ = false

abbrev pub is_failed_attempt : AttemptState → Bool
is_failed_attempt AttemptState.failed = true
is_failed_attempt _ = false

abbrev pub has_failed : Option AttemptRow → Bool
has_failed none = false
has_failed (some row) = row.1.is_verified && is_failed_attempt row.1.state

-- The reply says that the attempt has failed, and so says the payment.
abbrev pub is_confirmed_failure : Reconciled → Bool
is_confirmed_failure result =
    result.matched && (same_outcome result.outcome Outcome.failed && is_failed result.local_status)

-- A new attempt, unless the failure is not confirmed, which is raised after a commit.
abbrev pub restart : ℕ → Text → Bool → Reconciled → Tx (Answer (Option ℕ))
restart order_id address gateway_open result =
    if is_confirmed_failure result
    then (raise_if (not gateway_open) gateway_unavailable
        >> start_payfast order_id address
        >>= (λ id. pure (Answer.done (some id))))
    else pure (Answer.raised payment_not_retryable)

-- `retry` of a payment whose method is "payfast".
unfoldable pub retry_online :
    ℕ → ℕ → PaymentMethod → Text → Gateway → Bool → Payment → Tx (Answer (Option ℕ))
retry_online now order_id method address gateway gateway_open payment = do
  raise_if (not (is_payfast method)) payment_not_retryable
  raise_if (not (is_failed payment.status)) payment_unresolved
  attempt ← active_attempt order_id
  raise_if (not (has_failed attempt)) payment_not_retryable
  result ← reconcile_payfast now order_id none gateway
  restart order_id address gateway_open result

abbrev pub is_open_row : Option Payment → Bool
is_open_row none = true
is_open_row (some payment) = is_pending payment.status || is_failed payment.status

-- A pending online attempt whose method is to change.
abbrev pub is_stuck : PaymentMethod → Bool → Option Payment → Bool
is_stuck method has_payload none = false
is_stuck method has_payload (some payment) =
    (is_pending payment.status && has_payload)
    && not (same_text (method_text method) payment.method)

abbrev pub status_for : PaymentMethod → OrderStatus
status_for method =
    if is_cod method then OrderStatus.pending_cod_verification else OrderStatus.pending_payment

abbrev pub switch_order : PaymentMethod → Order → Order
switch_order method order = record order { payment_method = method; status = status_for method }

abbrev pub switch_payment : PaymentMethod → Payment → Payment
switch_payment method payment = record payment {
  method = method_text method;
  status = PaymentStatus.pending;
}

unfoldable pub without : ℕ → List (ℕ × GatewayPayload) → List (ℕ × GatewayPayload)
without payment_id [] = []
without payment_id (row ∷ rows) =
    if row.0 == payment_id then without payment_id rows else row ∷ without payment_id rows

abbrev pub is_failed_row : Option Payment → Bool
is_failed_row none = false
is_failed_row (some payment) = is_failed payment.status

-- The order and its payment take the method; the payload of a failed payment is emptied.
abbrev pub switch_method : ℕ → PaymentMethod → Db → Db
switch_method order_id method db = record db {
  orders = modify order_id (switch_order method) db.orders;
  payments = modify order_id (switch_payment method) db.payments;
  payloads =
      if is_failed_row (lookup order_id db.payments)
      then without order_id db.payloads
      else db.payloads;
}

-- `retry` of any other payment. The timeout of an order that is now paid in cash is put into a queue in Redis.
unfoldable pub retry_switched :
    ℕ
    → Option ℕ
    → Option Bool
    → PaymentMethod
    → Text
    → Bool
    → Order
    → Option Payment
    → Tx (Answer (Option ℕ))
retry_switched order_id user_id guest_token method address gateway_open order row = do
  raise_if (not (is_open_row row)) payment_not_retryable
  payload ← gets (λ db. lookup order_id db.payloads)
  raise_if (is_stuck method (is_some payload) row) payment_unresolved
  limit ← gets (λ db. db.settings.max_cod_order_amount)
  raise_if (is_cod method && ltb limit order.total) cod_limit
  raise_if (is_payfast method && not gateway_open) gateway_unavailable
  modify_db (switch_method order_id method)
  started ← initiate order_id user_id guest_token address gateway_open
  pure (Answer.done started)

abbrev pub retry_by :
    ℕ
    → ℕ
    → Option ℕ
    → Option Bool
    → PaymentMethod
    → Text
    → Gateway
    → Bool
    → Order
    → Option Payment
    → Tx (Answer (Option ℕ))
retry_by now order_id user_id guest_token method address gateway gateway_open order none =
    retry_switched order_id user_id guest_token method address gateway_open order none
retry_by now order_id user_id guest_token method address gateway gateway_open order (some payment) =
    if same_text payment.method payfast
    then retry_online now order_id method address gateway gateway_open payment
    else retry_switched order_id user_id guest_token method address gateway_open order
        (some payment)

-- The schema offers the methods "payfast" and "cod" only.
unfoldable pub retry :
    ℕ → ℕ → Option ℕ → Option Bool → PaymentMethod → Text → Gateway → Bool → Tx (Answer (Option ℕ))
retry now order_id user_id guest_token method address gateway gateway_open = do
  order ← authorized_order order_id user_id guest_token
  raise_if (not (awaits_payment order.status)) not_awaiting_payment
  row ← gets (λ db. lookup order_id db.payments)
  retry_by now order_id user_id guest_token method address gateway gateway_open order row
