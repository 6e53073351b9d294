-- ===== src/Payments/Gateway/Proven.antt =====
-- A reconciliation pays by right only, and never touches what is paid.
use drip_marketplace.Prelude.{
  ℕ, ◌≡◌, refl, ap, sym, inl, inr, true, false, not, ◌&&◌, Option, none, some, arith, Bool-cases,
}
use drip_marketplace.Db.{
  Never, Db, Text, Order, Payment, Ends, Ends-bind, Ends-guard, Ends-require, Ends-weaken, lookup,
  lookup-modify, lookup-modify_self,
}
use drip_marketplace.Texts.{is_blank, same_text}
use drip_marketplace.Commission.Refund.Allocated.{AnyError}
use drip_marketplace.Payments.Gateway.{Reply, Gateway, reply_outcome, text_of}
use drip_marketplace.Payments.Gateway.Owners.{Owned, find_by_reference-Owned}
use drip_marketplace.Payments.Gateway.Paid.{Quiet-refl, Quiet-modify, IsProven, Quiet-Gatewayed}
use drip_marketplace.Payments.Gateway.Reconcile.{
  AttemptRow, payfast, active_attempt, basket_of, lookup_transaction, address_of, find_by_reference,
  evidence_matches, is_paid, Verdict, verdict, paid_payment, failed_payment, Reconciled,
  status_after, settle_with, use_reply, reconcile_payfast,
}
use drip_marketplace.Payments.Gateway.Reconciled.{
  Applied, answer_of, settle_with-Applied, verdict-pay, verdict-fail,
}
use drip_marketplace.Payments.Gateway.ByRight.{pay-Gatewayed}
use drip_marketplace.Payments.Gateway.Evidence.{
  IsReconciled, evidence_facts, unnamed, not_elsewhere, active_attempt_same,
}

module _ (now id : ℕ) (payment : Payment) (order : Order) (expected : Option Text)
    (attempt : Option AttemptRow) (gateway : Gateway) (db : Db)
    (found : lookup id db.payments ≡ some payment)
    (ordered : lookup id db.orders ≡ some order) where
  module _ (reply : Reply)
      (asked : (basket : Text) × (transaction : Text) × (gateway basket transaction
          ≡ some reply)) where
    abbrev transaction : Text
    transaction = text_of reply.transaction_id

    abbrev reached : Option ℕ → Verdict
    reached duplicate =
        verdict (evidence_matches id payment order expected attempt duplicate reply)
          (reply_outcome reply) payment order transaction

    same-IsReconciled :
        (v : Verdict) (u : Db)
        → status_after v payment.status ≡ payment.status
        → u.payments ≡ db.payments
        → u.orders ≡ db.orders
        → IsReconciled gateway id (answer_of (reply_outcome reply) v payment) db u
    same-IsReconciled v u status same orders = record {
      gatewayed = Quiet-Gatewayed gateway db u (rw same (Quiet-refl db.payments));
      local = (payment, rw same found, sym status);
      others = λ k apart. rw same refl;
      orders = inl (record { orders = orders; paid_before = λ q there paid. rw same at there });
    }

    fail-IsReconciled :
        (u : Db)
        → is_paid payment.status ≡ false
        → Applied now id transaction Verdict.fail db u
        → IsReconciled gateway id (answer_of (reply_outcome reply) Verdict.fail payment) db u
    fail-IsReconciled u unpaid h = record {
      gatewayed = Quiet-Gatewayed gateway db u (
          rw h.payments (
            Quiet-modify id failed_payment db.payments (λ p there.
              let eq : payment ≡ p = ground (arith, found, there) in
              record {
                amount = refl;
                currency = refl;
                reference = refl;
                open_before = rw (← eq) unpaid;
                open_after = refl;
              })));
      local = (
        failed_payment payment,
        rw h.payments (lookup-modify_self id failed_payment payment db.payments found),
        refl,
      );
      others =
          λ k apart. rw h.payments (ground (arith, lookup-modify id k failed_payment db.payments));
      orders = inl (record {
        orders = h.orders;
        paid_before = λ q there paid.
            let stored : lookup id u.payments ≡ some (failed_payment payment) =
              rw h.payments (lookup-modify_self id failed_payment payment db.payments found) in
            let eq : failed_payment payment ≡ q = ground (arith, stored, there) in
            absurd (ground (arith, paid, ap (λ (x : Payment). is_paid x.status) eq));
      });
    }

    pay-IsReconciled :
        (duplicate : Option ℕ) (u : Db)
        → Owned transaction duplicate db
        → reached duplicate ≡ Verdict.pay
        → Applied now id transaction Verdict.pay db u
        → IsReconciled gateway id (answer_of (reply_outcome reply) Verdict.pay payment) db u
    pay-IsReconciled duplicate u owned e h =
        let (evidence, completed, unpaid, awaiting) =
          verdict-pay (evidence_matches id payment order expected attempt duplicate reply)
            (reply_outcome reply) payment order transaction e in
        let (named, here, due, money) =
          evidence_facts id payment order expected attempt duplicate reply evidence in
        let proof : IsProven gateway id (paid_payment now transaction payment) db = record {
          order = order;
          found = ordered;
          awaiting = awaiting;
          due = due;
          reply = reply;
          asked = asked;
          completed = completed;
          money = money;
          reference = refl;
          named = named;
          unowned = λ j r. not_elsewhere id j duplicate here (owned j r);
        } in
        record {
          gatewayed =
              pay-Gatewayed gateway id (paid_payment now transaction) payment db found unpaid refl
                refl proof u h.payments;
          local = (
            paid_payment now transaction payment,
            rw h.payments
                (lookup-modify_self id (paid_payment now transaction) payment db.payments found),
            refl,
          );
          others = λ k apart.
              rw h.payments
                (ground (arith, lookup-modify id k (paid_payment now transaction) db.payments));
          orders = inr (record {
            before = payment;
            found = found;
            unpaid = unpaid;
            after = paid_payment now transaction payment;
            stored =
                rw h.payments
                  (lookup-modify_self id (paid_payment now transaction) payment db.payments found);
            paid = refl;
            orders = h.orders;
          });
        }

    by_verdict :
        (duplicate : Option ℕ) (v : Verdict) (u : Db)
        → Owned transaction duplicate db
        → reached duplicate ≡ v
        → Applied now id transaction v db u
        → IsReconciled gateway id (answer_of (reply_outcome reply) v payment) db u
    by_verdict duplicate Verdict.pay u owned e h = pay-IsReconciled duplicate u owned e h
    by_verdict duplicate Verdict.fail u owned e h =
        fail-IsReconciled u
          (verdict-fail (evidence_matches id payment order expected attempt duplicate reply)
            (reply_outcome reply) payment order transaction e)
          h
    by_verdict duplicate Verdict.mismatch u owned e h =
        same-IsReconciled Verdict.mismatch u refl h.payments h.orders
    by_verdict duplicate Verdict.paid_before u owned e h =
        same-IsReconciled Verdict.paid_before u refl h.payments h.orders
    by_verdict duplicate Verdict.other_reference u owned e h =
        same-IsReconciled Verdict.other_reference u refl h.payments h.orders
    by_verdict duplicate Verdict.review u owned e h =
        same-IsReconciled Verdict.review u refl h.payments h.orders
    by_verdict duplicate Verdict.nothing u owned e h =
        same-IsReconciled Verdict.nothing u refl h.payments h.orders

    abbrev Ok : Reconciled → Db → Type 0
    Ok a u = IsReconciled gateway id a db u

    settle-IsReconciled :
        (duplicate : Option ℕ)
        → Owned transaction duplicate db
        → Ends Ok AnyError (
            settle_with now id payment attempt
              (reply_outcome reply)
              transaction
              (reached duplicate)
              db)
    settle-IsReconciled duplicate owned =
        Ends-weaken
          (λ a u.
            Applied now id transaction (reached duplicate) db u
            × (a ≡ answer_of (reply_outcome reply) (reached duplicate) payment))
          Ok Never AnyError
          (settle_with now id payment attempt (reply_outcome reply) transaction (reached duplicate)
            db)
          (settle_with-Applied now id payment attempt (reply_outcome reply) transaction
            (reached duplicate) db)
          (λ a u h. rw h.1 (by_verdict duplicate (reached duplicate) u owned refl h.0)) (λ _ _. tt)

    unnamed-IsReconciled :
        (duplicate : Option ℕ)
        → is_blank transaction ≡ true
        → Ends Ok AnyError (
            settle_with now id payment attempt
              (reply_outcome reply)
              transaction
              (reached duplicate)
              db)
    unfolding verdict
    unnamed-IsReconciled duplicate blank =
        rw (unnamed id payment order expected attempt duplicate reply blank) (
          Ends-weaken
            (λ a u.
              Applied now id transaction Verdict.mismatch db u
              × (a ≡ answer_of (reply_outcome reply) Verdict.mismatch payment))
            Ok Never AnyError
            (settle_with now id payment attempt (reply_outcome reply) transaction Verdict.mismatch
              db)
            (settle_with-Applied now id payment attempt (reply_outcome reply) transaction
              Verdict.mismatch db)
            (λ a u h. rw h.1 (same-IsReconciled Verdict.mismatch u refl h.0.payments h.0.orders))
            (λ _ _. tt))

    use_reply-IsReconciled :
        Ends Ok AnyError (use_reply now id payment order expected attempt reply db)
    unfolding use_reply
    use_reply-IsReconciled = elim (Bool-cases (is_blank transaction)) [
      | inl blank ↦ rw blank (unnamed-IsReconciled none blank)
      | inr named ↦ rw named (
          Ends-bind (find_by_reference transaction) (λ r t. (t ≡ db) × Owned transaction r db) Ok
            AnyError db _ (find_by_reference-Owned transaction db)
            (λ r t h. rw h.0 (settle-IsReconciled r h.1)))
    ]

-- Whatever the gateway replies, a reconciliation that goes through answers the status that the payment has then
-- and leaves all other payments; every payment keeps its amount and its currency, a paid payment does not change
-- at all, and the payment is paid by this only if its order was waiting for the payment and costs its amount, the
-- gateway has said that a transaction of this amount and currency is completed, and no other payment had that
-- transaction's reference; exactly then the order is confirmed. Unique references stay unique.
pub reconcile_payfast-IsReconciled :
    (now id : ℕ) (expected : Option Text) (gateway : Gateway) (db : Db)
    → Ends
        (λ a u. IsReconciled gateway id a db u)
        AnyError
        (reconcile_payfast now id expected gateway db)
unfolding reconcile_payfast
reconcile_payfast-IsReconciled now id expected gateway db =
    Ends-require Q AnyError db (lookup id db.orders) _ _ (λ _. tt)
      (λ order ordered.
        Ends-require Q AnyError db (lookup id db.payments) _ _ (λ _. tt)
          (λ payment found.
            Ends-guard Q AnyError db (not (same_text payment.method payfast)) _ _ (λ _. tt)
              (λ _.
                Ends-bind (active_attempt id) (λ _ t. t ≡ db) Q AnyError db _
                  (active_attempt_same id db)
                  (λ attempt t same. rw same (
                    Ends-guard Q AnyError db
                      (is_blank (lookup_transaction payment expected attempt)
                        && is_blank (address_of (lookup id db.payloads)))
                      _ _ (λ _. tt)
                      (λ _.
                        Ends-require Q AnyError db
                          (gateway (basket_of id attempt)
                            (lookup_transaction payment expected attempt))
                          _ _ (λ _. tt)
                          (λ reply asked.
                            use_reply-IsReconciled now id payment order expected attempt gateway db
                              found ordered reply
                              (
                                basket_of id attempt,
                                lookup_transaction payment expected attempt,
                                asked,
                              ))))))))
  where
    Q : Reconciled → Db → Type 0
    Q a u = IsReconciled gateway id a db u
