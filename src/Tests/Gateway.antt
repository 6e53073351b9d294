-- ===== src/Tests/Gateway.antt =====
-- Online payments on a database of Tests.
use drip_marketplace.Prelude.{ℕ, ◌≡◌, refl, true, false, Option, none, some, List, [], ◌∷◌, ◌++◌}
use drip_marketplace.Db.{
  Ends, Order, Payment, Db, Text, OrderStatus, PaymentStatus, lookup, insert, modify,
}
use drip_marketplace.Texts.{strip, lstrip, rstrip, is_space, same_text, same_optional}
use drip_marketplace.Outbox.{queued, is_queued}
use drip_marketplace.Orders.{authorized_order}
use drip_marketplace.Commission.Refund.Allocated.{AnyError}
use drip_marketplace.Payments.Gateway.{
  Reply, Value, Number, Gateway, upper, upper_char, is_among, provider_outcome, is_any_other,
  reply_outcome, ten_to, is_amount, is_currency, money_matches,
}
use drip_marketplace.Payments.Gateway.Reconcile.{
  payfast, reconcile_payfast, active_attempt, find_attempt, find_by_reference, owners, use_reply,
  evidence_matches, identifiers_match, verdict, settle_with, apply_verdict, resolve_attempt,
}
use drip_marketplace.Payments.Gateway.Checkout.{initiate, start_payfast, finish_start}
use drip_marketplace.Payments.Gateway.Callback.{
  Notification, handle_payfast_callback, handle_parsed, check_notification, is_other_payment,
  use_notification,
}
use drip_marketplace.Payments.{pkr}
use drip_marketplace.Payments.Gateway.Words.{PaidWord, paid_reply}
use drip_marketplace.Payments.Gateway.Proven.{reconcile_payfast-IsReconciled}
use drip_marketplace.Payments.Gateway.Evidence.{IsReconciled}
use drip_marketplace.Payments.Gateway.History.{
  GatewayOp, run_gateway_op, run_gateway, GatewayHistory, run_gateway-GatewayHistory,
}
use drip_marketplace.Tests.{order, shop}

-- Order 1, of 2,200.02 rupees, waits for its payment.
abbrev unpaid : Db
unpaid = record shop {
  orders = (1, record order { status = OrderStatus.pending_payment }) ∷ [];
  payments = [];
  refunds = [];
}

-- "T9", "Paid " and "pkr"
abbrev ticket : Text
ticket = 84 ∷ 57 ∷ []

abbrev success : Text
success = 80 ∷ 97 ∷ 105 ∷ 100 ∷ 32 ∷ []

abbrev rupees : Text
rupees = 112 ∷ 107 ∷ 114 ∷ []

-- The gateway says of every basket that 2200.020 rupees are paid.
abbrev generous_reply : Text → Reply
generous_reply basket = record {
  status_code = none;
  payment_status = some (Value.string success);
  status = none;
  code = some (Value.other true (48 ∷ 48 ∷ []));
  basket_id = some (Value.string basket);
  transaction_id = some (Value.string ticket);
  txnamt = some (some (Number.finite false 2200020 3));
  amount = none;
  currency_code = none;
  currency = some (some (Value.string rupees));
}

abbrev generous : Gateway
generous basket transaction = some (generous_reply basket)

-- "1.2.3.4"
abbrev home : Text
home = 49 ∷ 46 ∷ 50 ∷ 46 ∷ 51 ∷ 46 ∷ 52 ∷ []

abbrev notice : Notification
notice = record { basket = 60; amount = none; currency = none; txn_id = ticket; is_success = true }

abbrev begun : List GatewayOp
begun = GatewayOp.start 1 (some 5) none home true ∷ GatewayOp.finish 1 (some 5) none 60 true ∷ []

abbrev story : List GatewayOp
story =
    begun
    ++ GatewayOp.notify 900 true (some notice) generous
      ∷ GatewayOp.reconcile 901 1 none generous
      ∷ []

run_gateway-GatewayHistory_example : GatewayHistory story unpaid (run_gateway story unpaid)
run_gateway-GatewayHistory_example = run_gateway-GatewayHistory story unpaid

abbrev waiting : Db
waiting = run_gateway begun unpaid

reconcile_payfast-IsReconciled_example :
    Ends
      (λ a db. IsReconciled generous 1 a waiting db)
      AnyError
      (reconcile_payfast 900 1 (some ticket) generous waiting)
reconcile_payfast-IsReconciled_example =
    reconcile_payfast-IsReconciled 900 1 (some ticket) generous waiting

abbrev due_order : Order
due_order = record order { status = OrderStatus.pending_payment }

abbrev due_payment : Payment
due_payment = record {
  status = PaymentStatus.pending;
  amount = 220002;
  currency = pkr;
  method = payfast;
  gateway_reference = none;
  paid_at = none;
}

abbrev plain : Gateway
plain basket transaction = some (paid_reply PaidWord.success 60 ticket 2200020 3)

abbrev status_at : ℕ → Db → Option PaymentStatus
status_at id db = elim (lookup id db.payments) [ none ↦ none | some p ↦ some p.status ]

-- The first attempt is ready and nothing is paid.
is_begun : status_at 1 waiting ≡ some PaymentStatus.pending
unfolding run_gateway run_gateway_op initiate authorized_order start_payfast finish_start lookup
    insert modify same_text
is_begun = refl

-- The payment is paid by the notification.
is_paid_now : status_at 1 (run_gateway story unpaid) ≡ some PaymentStatus.completed
unfolding run_gateway run_gateway_op initiate authorized_order start_payfast finish_start lookup
    insert modify same_text handle_payfast_callback handle_parsed check_notification
    is_other_payment use_notification active_attempt find_attempt find_by_reference owners
    reconcile_payfast use_reply evidence_matches identifiers_match money_matches is_amount
    is_currency ten_to upper upper_char is_among provider_outcome is_any_other reply_outcome verdict
    settle_with apply_verdict resolve_attempt strip lstrip rstrip is_space same_optional queued
    is_queued
is_paid_now = refl
