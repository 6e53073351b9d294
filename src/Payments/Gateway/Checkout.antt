-- ===== src/Payments/Gateway/Checkout.antt =====
-- Online payments begin (`initiate` and `_start_payfast` of
-- services/payment_service.py). `_start_payfast` commits its claim before it asks the gateway for a token, and
-- what follows the token is an operation of its own, so that others may come in between.
use drip_marketplace.Prelude.{
  ℕ, ◌+◌, Bool, true, false, not, ◌&&◌, ◌||◌, Option, none, some, [], ◌∷◌, ◌==◌, is_some,
  if◌then◌else◌,
}
use drip_marketplace.Db.{
  Tx, Error, pure, raise_if, gets, modify_db, or_raise, ◌>>=◌, ◌>>◌, Db, Text, Order, OrderStatus,
  PaymentMethod, Payment, PaymentStatus, PaymentAttempt, AttemptState, lookup, insert, modify,
  historical_method, not_awaiting_payment, already_paid, payment_mismatch, payment_unresolved,
  gateway_unavailable, initiation_overtaken, not_found_payment, attempt_unavailable,
}
use drip_marketplace.Texts.{same_text}
use drip_marketplace.Orders.{authorized_order}
use drip_marketplace.Orders.Place.{is_payfast}
use drip_marketplace.Orders.Expiry.{is_cod}
use drip_marketplace.Payments.{pkr}
use drip_marketplace.Payments.Collection.{cod, is_pending}
use drip_marketplace.Payments.Gateway.Reconcile.{
  payfast, attempt_of, is_paid, awaits_payment, write_attempt,
}

-- What is answered, or what is raised after a commit.
pub data Answer (A : Type 0) : Type 0 where
  done : A → Answer A
  raised : Error → Answer A

-- "jazzcash", "easypaisa" and "card"
abbrev pub method_text : PaymentMethod → Text
method_text PaymentMethod.payfast = payfast
method_text PaymentMethod.cod = cod
method_text PaymentMethod.jazzcash = 106 ∷ 97 ∷ 122 ∷ 122 ∷ 99 ∷ 97 ∷ 115 ∷ 104 ∷ []
method_text PaymentMethod.easypaisa = 101 ∷ 97 ∷ 115 ∷ 121 ∷ 112 ∷ 97 ∷ 105 ∷ 115 ∷ 97 ∷ []
method_text PaymentMethod.card = 99 ∷ 97 ∷ 114 ∷ 100 ∷ []

abbrev pub is_payable : OrderStatus → Bool
is_payable OrderStatus.pending_payment = true
is_payable OrderStatus.pending_cod_verification = true
is_payable _ = false

abbrev pub is_paid_row : Option Payment → Bool
is_paid_row none = false
is_paid_row (some payment) = is_paid payment.status

abbrev pub new_payment : Order → Payment
new_payment order = record {
  status = PaymentStatus.pending;
  amount = order.total;
  currency = pkr;
  method = method_text order.payment_method;
  gateway_reference = none;
  paid_at = none;
}

abbrev pub payment_or_new : Order → Option Payment → Payment
payment_or_new order none = new_payment order
payment_or_new order (some payment) = payment

-- `if payment is None: payment = await self.payment_repo.create(...)`
abbrev pub create_payment : ℕ → Order → Option Payment → Tx (Unit {0})
create_payment order_id order (some payment) = pure tt
create_payment order_id order none =
    modify_db (λ db. record db { payments = insert order_id (new_payment order) db.payments })

abbrev pub pending_payment : Payment → Payment
pending_payment payment = record payment { status = PaymentStatus.pending }

abbrev pub new_attempt : ℕ → PaymentAttempt
new_attempt payment_id = record {
  payment_id = payment_id;
  state = AttemptState.starting;
  transaction_id = none;
  is_verified = false;
}

-- The claim, under the next identifier.
abbrev pub store_claim : ℕ → Text → Db → Db
store_claim order_id address db = record db {
  attempts = insert db.next_id (new_attempt order_id) db.attempts;
  payloads =
      insert order_id (record { active_attempt = some db.next_id; customer_ip = address })
        db.payloads;
  payments = modify order_id pending_payment db.payments;
  next_id = db.next_id + 1;
}

-- `_start_payfast`, up to its first commit; the answer is the attempt.
unfoldable pub start_payfast : ℕ → Text → Tx ℕ
start_payfast order_id address = do
  attempt_id ← gets (λ db. db.next_id)
  modify_db (store_claim order_id address)
  pure attempt_id

-- The online part of `initiate`; `gateway_open` tells that the gateway is configured and enabled.
abbrev pub start_online : ℕ → Text → Bool → Payment → Tx (Option ℕ)
start_online order_id address gateway_open payment = do
  raise_if (not gateway_open) gateway_unavailable
  payload ← gets (λ db. lookup order_id db.payloads)
  raise_if (not (is_pending payment.status) || is_some payload) payment_unresolved
  attempt_id ← start_payfast order_id address
  pure (some attempt_id)

-- The answer is the attempt of an online payment, and none for cash.
unfoldable pub initiate : ℕ → Option ℕ → Option Bool → Text → Bool → Tx (Option ℕ)
initiate order_id user_id guest_token address gateway_open = do
  order ← authorized_order order_id user_id guest_token
  raise_if (not (is_payfast order.payment_method) && not (is_cod order.payment_method))
      historical_method
  raise_if (not (is_payable order.status)) not_awaiting_payment
  row ← gets (λ db. lookup order_id db.payments)
  raise_if (is_paid_row row) already_paid
  create_payment order_id order row
  raise_if
      (not ((payment_or_new order row).amount == order.total)
        || not (same_text (payment_or_new order row).method (method_text order.payment_method)))
      payment_mismatch
  if is_cod order.payment_method
      then pure none
      else start_online order_id address gateway_open (payment_or_new order row)

abbrev pub is_starting : AttemptState → Bool
is_starting AttemptState.starting = true
is_starting _ = false

abbrev pub is_attempt : ℕ → Option ℕ → Bool
is_attempt attempt_id none = false
is_attempt attempt_id (some id) = id == attempt_id

abbrev pub ready_attempt : PaymentAttempt → PaymentAttempt
ready_attempt attempt = record attempt { state = AttemptState.ready }

-- `_start_payfast`, after the gateway's answer; `has_token` tells whether that was a token.
unfoldable pub finish_start : ℕ → Option ℕ → Option Bool → ℕ → Bool → Tx (Unit {0})
finish_start order_id user_id guest_token attempt_id has_token = do
  raise_if (not has_token) gateway_unavailable
  order ← authorized_order order_id user_id guest_token
  payment_row ← gets (λ db. lookup order_id db.payments)
  payment ← or_raise payment_row not_found_payment
  attempt_row ← gets (λ db. lookup attempt_id db.attempts)
  attempt ← or_raise attempt_row attempt_unavailable
  active ← gets (λ db. attempt_of (lookup order_id db.payloads))
  raise_if
      (not (awaits_payment order.status)
        || (not (is_pending payment.status)
            || (not (is_attempt attempt_id active) || not (is_starting attempt.state))))
      initiation_overtaken
  modify_db (write_attempt attempt_id ready_attempt)
