-- ===== src/Payments/Gateway/Evidence.antt =====
-- What the evidence for a payment says, and what a reconciliation may do with it.
use drip_marketplace.Prelude.{
  ℕ, ◌≡◌, refl, ◌⊎◌, true, false, Option, none, some, arith, ◌==◌, ==→eq,
}
use drip_marketplace.Db.{
  Db, Text, Order, Payment, Ends, pure, or_raise, ◌>>=◌, attempt_unavailable, lookup, modify,
}
use drip_marketplace.Texts.{is_blank}
use drip_marketplace.Commission.Refund.Allocated.{AnyError}
use drip_marketplace.Payments.Gateway.{Reply, Gateway, text_of, money_matches}
use drip_marketplace.Payments.Gateway.Paid.{Gatewayed}
use drip_marketplace.Payments.Gateway.Reconcile.{
  AttemptRow, if_attempt_of, find_attempt, attempt_of, active_attempt, is_elsewhere,
  identifiers_match, evidence_matches, is_paid, Reconciled,
}
use drip_marketplace.Payments.Gateway.Reconciled.{confirmed_order}

-- The payment was not paid before, it is paid now, and its order is confirmed; no other order changes.
pub record Confirms (id : ℕ) (db u : Db) : Type 0 where
  pub before : Payment
  pub found : lookup id db.payments ≡ some before
  pub unpaid : is_paid before.status ≡ false
  pub after : Payment
  pub stored : lookup id u.payments ≡ some after
  pub paid : is_paid after.status ≡ true
  pub orders : u.orders ≡ modify id confirmed_order db.orders

-- The payment is not paid by this: if it is paid now, it was before and is as it was. No order changes.
pub record LeavesOrders (id : ℕ) (db u : Db) : Type 0 where
  pub orders : u.orders ≡ db.orders
  pub paid_before :
      (q : Payment)
      → lookup id u.payments ≡ some q
      → is_paid q.status ≡ true
      → lookup id db.payments ≡ some q

-- A reconciliation answers the status of the payment, leaves the other payments, and confirms the order exactly
-- when it pays.
pub record IsReconciled (gateway : Gateway) (id : ℕ) (answer : Reconciled) (db u : Db)
    : Type 0 where
  pub gatewayed : Gatewayed gateway db u
  pub local : (q : Payment) × (lookup id u.payments ≡ some q) × (q.status ≡ answer.local_status)
  pub others : (k : ℕ) → (id == k) ≡ false → lookup k u.payments ≡ lookup k db.payments
  pub orders : LeavesOrders id db u ⊎ Confirms id db u

pub evidence_facts :
    (id : ℕ) (payment : Payment) (order : Order) (expected : Option Text)
    (attempt : Option AttemptRow) (duplicate : Option ℕ) (reply : Reply)
    → evidence_matches id payment order expected attempt duplicate reply ≡ true
    → (is_blank (text_of reply.transaction_id) ≡ false)
      × (is_elsewhere id duplicate ≡ false)
      × ((payment.amount == order.total) ≡ true)
      × (money_matches reply payment.amount payment.currency ≡ true)
unfolding evidence_matches identifiers_match
evidence_facts id payment order expected attempt duplicate reply e =
    (ground arith, ground arith, ground arith, ground arith)

pub unnamed :
    (id : ℕ) (payment : Payment) (order : Order) (expected : Option Text)
    (attempt : Option AttemptRow) (duplicate : Option ℕ) (reply : Reply)
    → is_blank (text_of reply.transaction_id) ≡ true
    → evidence_matches id payment order expected attempt duplicate reply ≡ false
unfolding evidence_matches identifiers_match
unnamed id payment order expected attempt duplicate reply e = ground arith

pub not_elsewhere :
    (id k : ℕ) (duplicate : Option ℕ)
    → is_elsewhere id duplicate ≡ false
    → duplicate ≡ some k
    → k ≡ id
not_elsewhere id k none e h = absurd (ground arith)
not_elsewhere id k (some j) e h = let same : j ≡ id = ==→eq j id (ground arith) in ground arith

if_attempt_same :
    (id : ℕ) (row : Option AttemptRow) (db : Db)
    → Ends
        (λ _ t. t ≡ db)
        AnyError
        ((or_raise row attempt_unavailable >>= (λ attempt. pure (some attempt))) db)
if_attempt_same id none db = tt
if_attempt_same id (some row) db = refl

find_attempt_same :
    (id : ℕ) (raw : Option ℕ) (db : Db) → Ends (λ _ t. t ≡ db) AnyError (find_attempt id raw db)
unfolding find_attempt
find_attempt_same id none db = refl
find_attempt_same id (some attempt) db =
    if_attempt_same id (if_attempt_of id attempt (lookup attempt db.attempts)) db

pub active_attempt_same : (id : ℕ) (db : Db) → Ends (λ _ t. t ≡ db) AnyError (active_attempt id db)
unfolding active_attempt
active_attempt_same id db = find_attempt_same id (attempt_of (lookup id db.payloads)) db
