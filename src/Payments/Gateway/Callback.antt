-- ===== src/Payments/Gateway/Callback.antt =====
-- The gateway's notifications (`handle_payfast_callback` of services/payment_service.py). They only lead to a
-- reconciliation: the status service decides. The row of the notification is written where the operation ends.
use drip_marketplace.Prelude.{
  ℕ, Bool, true, false, not, ◌&&◌, ◌||◌, Option, none, some, ◌==◌, is_some, if◌then◌else◌,
}
use drip_marketplace.Db.{
  Tx, Result, Error, ok, err, pure, raise_if, gets, modify_db, ◌>>=◌, ◌>>◌, Db, Text, Order,
  Payment, PaymentAttempt, PaymentStatus, GatewayAudit, lookup, attempt_unavailable,
  callback_mismatch, stale_attempt, payment_mismatch, reference_taken, unexpected_reference,
  not_awaiting_payment, payment_not_confirmed, gateway_unavailable, not_found_payment,
  integrity_error,
}
use drip_marketplace.Texts.{is_blank, same_text, same_optional}
use drip_marketplace.Payments.Gateway.{Number, Gateway, Outcome, same_outcome, is_amount}
use drip_marketplace.Payments.Gateway.Reconcile.{
  AttemptRow, payfast, active_attempt, find_by_reference, is_elsewhere, is_paid, awaits_payment,
  Reconciled, keep_reply, write_audit, reconcile_payfast,
}
use drip_marketplace.Payments.Gateway.Checkout.{Answer}

-- What `parse_callback` of the gateway's client has read and checked; the basket is an identifier.
pub record Notification : Type 0 where
  pub basket : ℕ
  pub amount : Option Number
  pub currency : Option Text
  pub txn_id : Text
  pub is_success : Bool

-- `await self.db.commit()` and `raise`
abbrev pub reject : Option ℕ → Error → Tx (Answer (Unit {0}))
reject payment_id e = do
  modify_db (write_audit (GatewayAudit.notified payment_id false))
  pure (Answer.raised e)

abbrev pub accept : ℕ → Tx (Answer (Unit {0}))
accept payment_id = do
  modify_db (write_audit (GatewayAudit.notified (some payment_id) true))
  pure (Answer.done tt)

-- A basket is that of an attempt, or an order itself.
abbrev pub order_of : ℕ → Option PaymentAttempt → ℕ
order_of basket none = basket
order_of basket (some attempt) = attempt.payment_id

abbrev pub is_stale : ℕ → Option PaymentAttempt → Option AttemptRow → Bool
is_stale basket found none = false
is_stale basket found (some row) = not (is_some found && basket == row.0)

abbrev pub is_other_amount : ℕ → Option Number → Bool
is_other_amount amount none = false
is_other_amount amount (some number) = not (is_amount amount (some number))

abbrev pub is_other_currency : Text → Option Text → Bool
is_other_currency currency none = false
is_other_currency currency (some text) = not (same_text text currency)

unfoldable pub is_other_payment : Notification → Payment → Order → Bool
is_other_payment n payment order =
    (is_other_amount payment.amount n.amount || is_other_currency payment.currency n.currency)
    || (not (payment.amount == order.total) || is_blank n.txn_id)

abbrev pub claimed_outcome : Notification → Outcome
claimed_outcome n = if n.is_success then Outcome.completed else Outcome.failed

abbrev pub claimed_status : Notification → PaymentStatus → Bool
claimed_status n PaymentStatus.completed = n.is_success
claimed_status n PaymentStatus.failed = not n.is_success
claimed_status n _ = false

abbrev pub is_confirmed : Notification → Reconciled → Bool
is_confirmed n result =
    result.matched
    && (claimed_status n result.local_status && same_outcome result.outcome (claimed_outcome n))

-- Errors of other classes are not caught.
abbrev pub is_caught : Error → Bool
is_caught not_found_payment = false
is_caught integrity_error = false
is_caught _ = true

abbrev pub caught : Db → Result Db Reconciled → Result Db (Answer Reconciled)
caught db (ok result t) = ok (Answer.done result) t
caught db (err e) = if is_caught e then ok (Answer.raised e) db else err e

-- `reconcile_payfast` raises before it writes anything.
abbrev pub try_reconcile : ℕ → ℕ → Option Text → Gateway → Tx (Answer Reconciled)
try_reconcile now order_id expected gateway db =
    caught db (reconcile_payfast now order_id expected gateway db)

abbrev pub finish_callback : Notification → ℕ → Answer Reconciled → Tx (Answer (Unit {0}))
finish_callback n payment_id (Answer.raised e) = reject (some payment_id) e
finish_callback n payment_id (Answer.done result) =
    if is_confirmed n result
    then (modify_db (keep_reply payment_id) >> accept payment_id)
    else reject (some payment_id) payment_not_confirmed

abbrev pub ask_gateway : ℕ → Notification → Gateway → ℕ → Tx (Answer (Unit {0}))
ask_gateway now n gateway order_id =
    try_reconcile now order_id (some n.txn_id) gateway >>= finish_callback n order_id

unfoldable pub use_notification :
    ℕ → Notification → Gateway → ℕ → Payment → Order → Tx (Answer (Unit {0}))
use_notification now n gateway order_id payment order =
    if is_paid payment.status
    then if same_optional payment.gateway_reference (some n.txn_id)
      then accept order_id
      else reject (some order_id) unexpected_reference
    else if awaits_payment order.status
    then ask_gateway now n gateway order_id
    else reject (some order_id) not_awaiting_payment

abbrev pub use_unless_taken :
    ℕ → Notification → Gateway → ℕ → Payment → Order → Tx (Answer (Unit {0}))
use_unless_taken now n gateway order_id payment order = do
  duplicate ← find_by_reference n.txn_id
  if is_elsewhere order_id duplicate
      then reject (some order_id) reference_taken
      else use_notification now n gateway order_id payment order

unfoldable pub check_notification :
    ℕ → Notification → Gateway → ℕ → Payment → Order → Tx (Answer (Unit {0}))
check_notification now n gateway order_id payment order = do
  attempt ← active_attempt order_id
  found ← gets (λ db. lookup n.basket db.attempts)
  if is_stale n.basket found attempt
      then reject (some order_id) stale_attempt
      else if is_other_payment n payment order
      then reject (some order_id) payment_mismatch
      else use_unless_taken now n gateway order_id payment order

abbrev pub check_online :
    ℕ → Notification → Gateway → ℕ → Option Order → Option Payment → Tx (Answer (Unit {0}))
check_online now n gateway order_id (some order) (some payment) =
    if same_text payment.method payfast
    then check_notification now n gateway order_id payment order
    else reject none callback_mismatch
check_online now n gateway order_id _ _ = reject none callback_mismatch

unfoldable pub handle_parsed : ℕ → Gateway → Option Notification → Tx (Answer (Unit {0}))
handle_parsed now gateway none = reject none callback_mismatch
handle_parsed now gateway (some n) = do
  found ← gets (λ db. lookup n.basket db.attempts)
  payment ← gets (λ db. lookup (order_of n.basket found) db.payments)
  raise_if (is_some found && not (is_some payment)) attempt_unavailable
  order ← gets (λ db. lookup (order_of n.basket found) db.orders)
  check_online now n gateway (order_of n.basket found) order payment

-- `parsed` is none when the notification is invalid.
unfoldable pub handle_payfast_callback :
    ℕ → Bool → Option Notification → Gateway → Tx (Answer (Unit {0}))
handle_payfast_callback now gateway_open parsed gateway = do
  raise_if (not gateway_open) gateway_unavailable
  handle_parsed now gateway parsed
