-- ===== src/Payments/Gateway/Reconcile.antt =====
-- `reconcile_payfast` and `_active_attempt` of services/payment_service.py: a payment is settled with the reply
-- of the gateway's status service.
use drip_marketplace.Prelude.{
  ℕ, Bool, true, false, not, ◌&&◌, ◌||◌, Option, none, some, List, [], ◌∷◌, ◌==◌, if◌then◌else◌,
}
use drip_marketplace.Db.{
  Tx, pure, raise, raise_if, gets, modify_db, or_raise, ◌>>=◌, ◌>>◌, Db, Text, Order, OrderStatus,
  Payment, PaymentStatus, PaymentAttempt, AttemptState, GatewayPayload, GatewayAudit, Event, lookup,
  insert, modify, not_found_payment, not_payfast, attempt_unavailable, address_missing,
  gateway_unavailable, integrity_error,
}
use drip_marketplace.Texts.{strip, is_blank, same_text, same_optional}
use drip_marketplace.Outbox.{queue_notification}
use drip_marketplace.Orders.{update_order}
use drip_marketplace.Payments.Gateway.{
  Reply, Gateway, Outcome, reply_outcome, text_of, money_matches,
}

abbrev pub PaymentRow : Type 0
PaymentRow = ℕ × Payment

abbrev pub AttemptRow : Type 0
AttemptRow = ℕ × PaymentAttempt

-- "payfast"
abbrev pub payfast : Text
payfast = 112 ∷ 97 ∷ 121 ∷ 102 ∷ 97 ∷ 115 ∷ 116 ∷ []

abbrev pub attempt_of : Option GatewayPayload → Option ℕ
attempt_of none = none
attempt_of (some payload) = payload.active_attempt

abbrev pub if_attempt_of : ℕ → ℕ → Option PaymentAttempt → Option AttemptRow
if_attempt_of payment_id id none = none
if_attempt_of payment_id id (some attempt) =
    if attempt.payment_id == payment_id then some (id, attempt) else none

-- `_active_attempt`, of the payment of this order.
unfoldable pub find_attempt : ℕ → Option ℕ → Tx (Option AttemptRow)
find_attempt payment_id none = pure none
find_attempt payment_id (some id) = do
  row ← gets (λ db. if_attempt_of payment_id id (lookup id db.attempts))
  attempt ← or_raise row attempt_unavailable
  pure (some attempt)

unfoldable pub active_attempt : ℕ → Tx (Option AttemptRow)
active_attempt payment_id = do
  id ← gets (λ db. attempt_of (lookup payment_id db.payloads))
  find_attempt payment_id id

-- The identifier of an attempt or of an order as a text, whose digits stand as one symbol.
abbrev pub basket_of : ℕ → Option AttemptRow → Text
basket_of order_id none = order_id ∷ []
basket_of order_id (some row) = row.0 ∷ []

abbrev pub or_text : Option Text → Text → Text
or_text none text = text
or_text (some first) text = if is_blank first then text else first

abbrev pub attempt_transaction : Option AttemptRow → Option Text
attempt_transaction none = none
attempt_transaction (some row) = row.1.transaction_id

abbrev pub lookup_transaction : Payment → Option Text → Option AttemptRow → Text
lookup_transaction payment expected attempt =
    or_text payment.gateway_reference (or_text expected (or_text (attempt_transaction attempt) []))

abbrev pub address_of : Option GatewayPayload → Text
address_of none = []
address_of (some payload) = strip payload.customer_ip

unfoldable pub owners : Text → List PaymentRow → List ℕ
owners reference [] = []
owners reference (row ∷ rows) =
    if same_optional row.1.gateway_reference (some reference)
    then row.0 ∷ owners reference rows
    else owners reference rows

abbrev pub only_owner : List ℕ → Tx (Option ℕ)
only_owner [] = pure none
only_owner (id ∷ []) = pure (some id)
only_owner _ = raise integrity_error

-- `get_by_gateway_reference`, which fails when several payments have the reference.
unfoldable pub find_by_reference : Text → Tx (Option ℕ)
find_by_reference reference db = only_owner (owners reference db.payments) db

-- `if transaction_id`
abbrev pub find_duplicate : Text → Tx (Option ℕ)
find_duplicate reference = if is_blank reference then pure none else find_by_reference reference

abbrev pub is_elsewhere : ℕ → Option ℕ → Bool
is_elsewhere payment_id none = false
is_elsewhere payment_id (some id) = not (id == payment_id)

-- A text that is there must be this one.
abbrev pub is_compatible : Text → Option Text → Bool
is_compatible transaction none = true
is_compatible transaction (some text) = is_blank text || same_text text transaction

-- `identifiers_match`
unfoldable pub identifiers_match :
    ℕ → Payment → Option Text → Option AttemptRow → Option ℕ → Reply → Bool
identifiers_match payment_id payment expected attempt duplicate reply =
    (same_text (text_of reply.basket_id) (basket_of payment_id attempt)
      && not (is_blank (text_of reply.transaction_id)))
    && ((is_compatible (text_of reply.transaction_id) (attempt_transaction attempt)
          && is_compatible (text_of reply.transaction_id) payment.gateway_reference)
        && (is_compatible (text_of reply.transaction_id) expected
            && not (is_elsewhere payment_id duplicate)))

-- `evidence_matches`
unfoldable pub evidence_matches :
    ℕ → Payment → Order → Option Text → Option AttemptRow → Option ℕ → Reply → Bool
evidence_matches payment_id payment order expected attempt duplicate reply =
    identifiers_match payment_id payment expected attempt duplicate reply
    && (payment.amount == order.total && money_matches reply payment.amount payment.currency)

-- A payment that was paid once is completed or refunded.
abbrev pub is_paid : PaymentStatus → Bool
is_paid PaymentStatus.completed = true
is_paid PaymentStatus.refunded = true
is_paid _ = false

abbrev pub awaits_payment : OrderStatus → Bool
awaits_payment OrderStatus.pending_payment = true
awaits_payment _ = false

-- What the evidence leads to.
pub data Verdict : Type 0 where
  mismatch paid_before other_reference pay review fail nothing : Verdict

abbrev pub paid_verdict : Payment → Order → Text → Verdict
paid_verdict payment order transaction =
    if is_paid payment.status
    then if same_optional payment.gateway_reference (some transaction)
      then Verdict.paid_before
      else Verdict.other_reference
    else if awaits_payment order.status
    then Verdict.pay
    else Verdict.review

unfoldable pub verdict : Bool → Outcome → Payment → Order → Text → Verdict
verdict false outcome payment order transaction = Verdict.mismatch
verdict true Outcome.completed payment order transaction = paid_verdict payment order transaction
verdict true Outcome.failed payment order transaction =
    if is_paid payment.status then Verdict.nothing else Verdict.fail
verdict true Outcome.unknown payment order transaction = Verdict.nothing

-- `evidence_matches` at the end.
abbrev pub is_matched : Verdict → Bool
is_matched Verdict.mismatch = false
is_matched Verdict.other_reference = false
is_matched _ = true

abbrev pub paid_payment : ℕ → Text → Payment → Payment
paid_payment now transaction payment = record payment {
  status = PaymentStatus.completed;
  gateway_reference = some transaction;
  paid_at = some now;
}

abbrev pub failed_payment : Payment → Payment
failed_payment payment = record payment { status = PaymentStatus.failed }

abbrev pub write_payment : ℕ → (Payment → Payment) → Db → Db
write_payment payment_id f db = record db { payments = modify payment_id f db.payments }

unfoldable pub apply_verdict : ℕ → ℕ → Text → Verdict → Tx (Unit {0})
apply_verdict now order_id transaction Verdict.pay = do
  modify_db (write_payment order_id (paid_payment now transaction))
  modify_db (update_order order_id OrderStatus.payment_confirmed)
  queue_notification (Event.order_status order_id OrderStatus.payment_confirmed)
apply_verdict now order_id transaction Verdict.fail =
    modify_db (write_payment order_id failed_payment)
apply_verdict now order_id transaction _ = pure tt

abbrev pub is_closed_attempt : AttemptState → Bool
is_closed_attempt AttemptState.completed = true
is_closed_attempt _ = false

-- Whether the attempt is resolved; a paid payment is none that this reply makes fail.
abbrev pub resolves : Verdict → Outcome → Payment → PaymentAttempt → Bool
resolves verdict Outcome.completed payment attempt = is_matched verdict
resolves verdict Outcome.failed payment attempt =
    is_matched verdict && not (is_closed_attempt attempt.state || is_paid payment.status)
resolves verdict Outcome.unknown payment attempt = false

abbrev pub attempt_state : Outcome → AttemptState
attempt_state Outcome.completed = AttemptState.completed
attempt_state _ = AttemptState.failed

abbrev pub resolved_attempt : Outcome → Text → PaymentAttempt → PaymentAttempt
resolved_attempt outcome transaction attempt = record attempt {
  state = attempt_state outcome;
  transaction_id = some transaction;
  is_verified = true;
}

abbrev pub write_attempt : ℕ → (PaymentAttempt → PaymentAttempt) → Db → Db
write_attempt id f db = record db { attempts = modify id f db.attempts }

unfoldable pub resolve_attempt :
    Verdict → Outcome → Payment → Text → Option AttemptRow → Tx (Unit {0})
resolve_attempt verdict outcome payment transaction none = pure tt
resolve_attempt verdict outcome payment transaction (some row) =
    if resolves verdict outcome payment row.1
    then modify_db (write_attempt row.0 (resolved_attempt outcome transaction))
    else pure tt

abbrev pub kept_payload : Option GatewayPayload → GatewayPayload
kept_payload none = record { active_attempt = none; customer_ip = [] }
kept_payload (some payload) = payload

-- The reply is kept in the payload, which is not empty from then on.
abbrev pub keep_reply : ℕ → Db → Db
keep_reply payment_id db = record db {
  payloads = insert payment_id (kept_payload (lookup payment_id db.payloads)) db.payloads;
}

abbrev pub write_audit : GatewayAudit → Db → Db
write_audit audit db = record db { audits = audit ∷ db.audits }

-- What is answered of the status, and whether the reply matches.
pub record Reconciled : Type 0 where
  pub outcome : Outcome
  pub local_status : PaymentStatus
  pub matched : Bool

abbrev pub status_after : Verdict → PaymentStatus → PaymentStatus
status_after Verdict.pay status = PaymentStatus.completed
status_after Verdict.fail status = PaymentStatus.failed
status_after _ status = status

unfoldable pub settle_with :
    ℕ → ℕ → Payment → Option AttemptRow → Outcome → Text → Verdict → Tx Reconciled
settle_with now order_id payment attempt outcome transaction verdict = do
  modify_db (write_audit (GatewayAudit.reconciled order_id (is_matched verdict)))
  apply_verdict now order_id transaction verdict
  resolve_attempt verdict outcome payment transaction attempt
  modify_db (keep_reply order_id)
  pure (record {
    outcome = outcome;
    local_status = status_after verdict payment.status;
    matched = is_matched verdict;
  })

unfoldable pub use_reply :
    ℕ → ℕ → Payment → Order → Option Text → Option AttemptRow → Reply → Tx Reconciled
use_reply now order_id payment order expected attempt reply = do
  duplicate ← find_duplicate (text_of reply.transaction_id)
  settle_with now order_id payment attempt (reply_outcome reply) (text_of reply.transaction_id) (
      verdict (evidence_matches order_id payment order expected attempt duplicate reply)
        (reply_outcome reply) payment order (text_of reply.transaction_id))

unfoldable pub reconcile_payfast : ℕ → ℕ → Option Text → Gateway → Tx Reconciled
reconcile_payfast now order_id expected gateway = do
  order_row ← gets (λ db. lookup order_id db.orders)
  order ← or_raise order_row not_found_payment
  payment_row ← gets (λ db. lookup order_id db.payments)
  payment ← or_raise payment_row not_found_payment
  raise_if (not (same_text payment.method payfast)) not_payfast
  attempt ← active_attempt order_id
  address ← gets (λ db. address_of (lookup order_id db.payloads))
  raise_if (is_blank (lookup_transaction payment expected attempt) && is_blank address)
      address_missing
  reply ←
      or_raise (gateway (basket_of order_id attempt) (lookup_transaction payment expected attempt))
        gateway_unavailable
  use_reply now order_id payment order expected attempt reply
