-- ===== src/Payments/Gateway/Due.antt =====
-- What a reconciliation does whose checks all pass.
use drip_marketplace.Prelude.{ℕ, ◌≡◌, refl, true, false, ◌&&◌, Option, some}
use drip_marketplace.Db.{
  Db, Text, Order, Payment, PaymentStatus, Ends, Ends-weaken, Never, ok, ◌>>=◌, ◌>>◌, lookup,
  modify, lookup-modify_self,
}
use drip_marketplace.Texts.{is_blank, same_text}
use drip_marketplace.Payments.Gateway.{Reply, Gateway, Outcome, reply_outcome, text_of}
use drip_marketplace.Payments.Gateway.Reconcile.{
  AttemptRow, payfast, active_attempt, basket_of, lookup_transaction, address_of, find_duplicate,
  evidence_matches, is_paid, awaits_payment, Verdict, verdict, paid_payment, Reconciled,
  settle_with, use_reply, reconcile_payfast,
}
use drip_marketplace.Payments.Gateway.Reconciled.{
  confirmed_order, Applied, answer_of, settle_with-Applied,
}

-- What the gateway and the database say when a payment is made and not recorded yet.
pub record IsDue (id : ℕ) (expected : Option Text) (gateway : Gateway) (db : Db) : Type 0 where
  pub order : Order
  pub ordered : lookup id db.orders ≡ some order
  pub awaiting : awaits_payment order.status ≡ true
  pub payment : Payment
  pub found : lookup id db.payments ≡ some payment
  pub online : same_text payment.method payfast ≡ true
  pub unpaid : is_paid payment.status ≡ false
  pub attempt : Option AttemptRow
  pub active : active_attempt id db ≡ ok attempt db
  pub traceable :
      (is_blank (lookup_transaction payment expected attempt)
        && is_blank (address_of (lookup id db.payloads)))
      ≡ false
  pub reply : Reply
  pub asked :
      gateway (basket_of id attempt) (lookup_transaction payment expected attempt) ≡ some reply
  pub completed : reply_outcome reply ≡ Outcome.completed
  pub duplicate : Option ℕ
  pub looked_up : find_duplicate (text_of reply.transaction_id) db ≡ ok duplicate db
  pub evidence : evidence_matches id payment order expected attempt duplicate reply ≡ true

-- The payment and its order after it.
pub record PaysNow (now id : ℕ) (payment : Payment) (transaction : Text) (answer : Reconciled)
    (db u : Db) : Type 0 where
  pub matched : answer.matched ≡ true
  pub status : answer.local_status ≡ PaymentStatus.completed
  pub paid : lookup id u.payments ≡ some (paid_payment now transaction payment)
  pub confirmed : u.orders ≡ modify id confirmed_order db.orders

module _ (now id : ℕ) (expected : Option Text) (gateway : Gateway) (db : Db)
    (h : IsDue id expected gateway db) where
  abbrev Ok : Reconciled → Db → Type 0
  Ok a u = PaysNow now id h.payment (text_of h.reply.transaction_id) a db u

  due_verdict :
      verdict
        (evidence_matches id h.payment h.order expected h.attempt h.duplicate h.reply)
        (reply_outcome h.reply)
        h.payment
        h.order
        (text_of h.reply.transaction_id)
      ≡ Verdict.pay
  unfolding verdict
  due_verdict = rw (h.evidence, h.completed) (rw (h.unpaid, h.awaiting) refl)

  pays_then : Ends Ok Never (
      settle_with now id h.payment h.attempt
        (reply_outcome h.reply)
        (text_of h.reply.transaction_id)
        Verdict.pay
        db)
  pays_then =
      Ends-weaken
        (λ a u.
          Applied now id (text_of h.reply.transaction_id) Verdict.pay db u
          × (a ≡ answer_of (reply_outcome h.reply) Verdict.pay h.payment))
        Ok Never Never
        (settle_with now id h.payment h.attempt (reply_outcome h.reply)
          (text_of h.reply.transaction_id) Verdict.pay db)
        (settle_with-Applied now id h.payment h.attempt (reply_outcome h.reply)
          (text_of h.reply.transaction_id) Verdict.pay db)
        (λ a u done. rw done.1 (record {
          matched = refl;
          status = refl;
          paid = rw done.0.payments (
              lookup-modify_self id (paid_payment now (text_of h.reply.transaction_id)) h.payment
                db.payments h.found);
          confirmed = done.0.orders;
        }))
        (λ _ e. e)

pub reconcile_payfast-PaysNow :
    (now id : ℕ) (expected : Option Text) (gateway : Gateway) (db : Db)
    (h : IsDue id expected gateway db)
    → Ends
        (λ a u. PaysNow now id h.payment (text_of h.reply.transaction_id) a db u)
        Never
        (reconcile_payfast now id expected gateway db)
unfolding reconcile_payfast use_reply
reconcile_payfast-PaysNow now id expected gateway db h =
    rw (◌>>=◌, ◌>>◌, h.ordered, h.found)
      (rw (◌>>=◌, ◌>>◌, h.online)
        (rw (◌>>=◌, ◌>>◌, h.active)
          (rw (◌>>=◌, ◌>>◌, h.traceable, h.asked)
            (rw (◌>>=◌, ◌>>◌, h.looked_up)
              (rw (due_verdict now id expected gateway db h)
                (pays_then now id expected gateway db h))))))
