-- ===== src/Payments/Gateway/History.antt =====
-- Any sequence of the operations with the payment gateway, each in its transaction: one that fails is rolled back.
use drip_marketplace.Prelude.{
  ℕ, ◌≡◌, refl, ap, ◌⊎◌, inl, inr, Bool, true, false, Option, none, some, List, [], ◌∷◌, ◌++◌,
}
use drip_marketplace.Db.{
  Db, Tx, Text, Payment, PaymentMethod, Ends, Ends-weaken, Ends-after, after, lookup,
}
use drip_marketplace.Commission.Refund.Allocated.{AnyError}
use drip_marketplace.Payments.Gateway.{Gateway}
use drip_marketplace.Payments.Gateway.Reconcile.{Reconciled, is_paid, reconcile_payfast}
use drip_marketplace.Payments.Gateway.Checkout.{initiate, finish_start}
use drip_marketplace.Payments.Gateway.Retry.{retry}
use drip_marketplace.Payments.Gateway.Callback.{Notification, handle_payfast_callback}
use drip_marketplace.Payments.Gateway.Paid.{
  HasUniqueReferences, PaymentsFollow, PaymentsFollow-trans, PaymentFollows-refl, Quiet, Quiet-refl,
  IsProven, Gatewayed, Quiet-Gatewayed,
}
use drip_marketplace.Payments.Gateway.Proven.{reconcile_payfast-IsReconciled}
use drip_marketplace.Payments.Gateway.Evidence.{IsReconciled}
use drip_marketplace.Payments.Gateway.Started.{initiate-Quiet, finish_start-Quiet}
use drip_marketplace.Payments.Gateway.Renewed.{retry-Gatewayed}
use drip_marketplace.Payments.Gateway.Notified.{handle_payfast_callback-Gatewayed}

pub data GatewayOp : Type 0 where
  start : ℕ → Option ℕ → Option Bool → Text → Bool → GatewayOp
  finish : ℕ → Option ℕ → Option Bool → ℕ → Bool → GatewayOp
  again : ℕ → ℕ → Option ℕ → Option Bool → PaymentMethod → Text → Gateway → Bool → GatewayOp
  notify : ℕ → Bool → Option Notification → Gateway → GatewayOp
  reconcile : ℕ → ℕ → Option Text → Gateway → GatewayOp

-- The gateway as the operation finds it.
abbrev pub gateway_of : GatewayOp → Gateway
gateway_of (GatewayOp.again now id user_id guest_token method address gateway gateway_open) =
    gateway
gateway_of (GatewayOp.notify now gateway_open parsed gateway) = gateway
gateway_of (GatewayOp.reconcile now id expected gateway) = gateway
gateway_of _ = λ basket transaction. none

unfoldable pub run_gateway_op : GatewayOp → Db → Db
run_gateway_op (GatewayOp.start id user_id guest_token address gateway_open) db =
    after (initiate id user_id guest_token address gateway_open) db
run_gateway_op (GatewayOp.finish id user_id guest_token attempt has_token) db =
    after (finish_start id user_id guest_token attempt has_token) db
run_gateway_op (GatewayOp.again now id user_id guest_token method address gateway gateway_open) db =
    after (retry now id user_id guest_token method address gateway gateway_open) db
run_gateway_op (GatewayOp.notify now gateway_open parsed gateway) db =
    after (handle_payfast_callback now gateway_open parsed gateway) db
run_gateway_op (GatewayOp.reconcile now id expected gateway) db =
    after (reconcile_payfast now id expected gateway) db

unfoldable pub run_gateway : List GatewayOp → Db → Db
run_gateway [] db = db
run_gateway (op ∷ ops) db = run_gateway ops (run_gateway_op op db)

module _ (gateway : Gateway) (db : Db) where
  after-Gatewayed :
      {A : Type 0}
      → (m : Tx A) → Ends (λ _ u. Gatewayed gateway db u) AnyError (m db)
      → Gatewayed gateway db (after m db)
  after-Gatewayed m h =
      Ends-after (Gatewayed gateway) AnyError m db
        (Quiet-Gatewayed gateway db db (Quiet-refl db.payments)) h

  after-Quiet :
      {A : Type 0}
      → (m : Tx A) → Ends (λ _ u. Quiet db.payments u.payments) AnyError (m db)
      → Gatewayed gateway db (after m db)
  after-Quiet m h = after-Gatewayed m (
      Ends-weaken (λ _ u. Quiet db.payments u.payments) (λ _ u. Gatewayed gateway db u) AnyError
        AnyError (m db) h (λ _ u quiet. Quiet-Gatewayed gateway db u quiet) (λ _ _. tt))

  after-IsReconciled :
      (id : ℕ) (m : Tx Reconciled)
      → Ends (λ a u. IsReconciled gateway id a db u) AnyError (m db)
      → Gatewayed gateway db (after m db)
  after-IsReconciled id m h = after-Gatewayed m (
      Ends-weaken (λ a u. IsReconciled gateway id a db u) (λ _ u. Gatewayed gateway db u) AnyError
        AnyError (m db) h (λ _ u r. r.gatewayed) (λ _ _. tt))

run_gateway_op-Gatewayed :
    (op : GatewayOp) (db : Db) → Gatewayed (gateway_of op) db (run_gateway_op op db)
unfolding run_gateway_op
run_gateway_op-Gatewayed (GatewayOp.start id user_id guest_token address gateway_open) db =
    after-Quiet _ db (initiate id user_id guest_token address gateway_open)
      (initiate-Quiet id user_id guest_token address gateway_open db)
run_gateway_op-Gatewayed (GatewayOp.finish id user_id guest_token attempt has_token) db =
    after-Quiet _ db (finish_start id user_id guest_token attempt has_token)
      (finish_start-Quiet id user_id guest_token [] false attempt has_token db)
run_gateway_op-Gatewayed
      (GatewayOp.again now id user_id guest_token method address gateway gateway_open) db =
    after-Gatewayed gateway db
      (retry now id user_id guest_token method address gateway gateway_open)
      (retry-Gatewayed now id user_id guest_token method address gateway gateway_open db)
run_gateway_op-Gatewayed (GatewayOp.notify now gateway_open parsed gateway) db =
    after-Gatewayed gateway db (handle_payfast_callback now gateway_open parsed gateway)
      (handle_payfast_callback-Gatewayed now gateway db gateway_open parsed)
run_gateway_op-Gatewayed (GatewayOp.reconcile now id expected gateway) db =
    after-IsReconciled gateway db id (reconcile_payfast now id expected gateway)
      (reconcile_payfast-IsReconciled now id expected gateway db)

-- Some operation of the run has paid the payment by right, in the database that it found.
pub record WasPaid (ops : List GatewayOp) (db : Db) (k : ℕ) (q : Payment) : Type 0 where
  pub earlier : List GatewayOp
  pub op : GatewayOp
  pub later : List GatewayOp
  pub split : ops ≡ earlier ++ op ∷ later
  pub proven : IsProven (gateway_of op) k q (run_gateway earlier db)

pub record GatewayHistory (ops : List GatewayOp) (db db' : Db) : Type 0 where
  pub follow : PaymentsFollow db.payments db'.payments
  pub paid :
      (k : ℕ) (q : Payment)
      → lookup k db'.payments ≡ some q
      → is_paid q.status ≡ true
      → (lookup k db.payments ≡ some q) ⊎ WasPaid ops db k q
  pub unique : HasUniqueReferences db.payments → HasUniqueReferences db'.payments

first_paid :
    (op : GatewayOp) (ops : List GatewayOp) (db : Db) (k : ℕ) (q : Payment)
    → IsProven (gateway_of op) k q db
    → WasPaid (op ∷ ops) db k q
unfolding run_gateway
first_paid op ops db k q h = record { earlier = []; op = op; later = ops; split = refl; proven = h }

later_paid :
    (op : GatewayOp) (ops : List GatewayOp) (db : Db) (k : ℕ) (q : Payment)
    → WasPaid ops (run_gateway_op op db) k q
    → WasPaid (op ∷ ops) db k q
unfolding run_gateway
later_paid op ops db k q h = record {
  earlier = op ∷ h.earlier;
  op = h.op;
  later = h.later;
  split = ap (λ rest. op ∷ rest) h.split;
  proven = h.proven;
}

-- Whatever payments are begun, notified of, reconciled and tried again, in any order, with any replies of the
-- gateway and with any outcome: every payment keeps its amount and currency, a payment that is paid never
-- changes, and one that is paid in the end was so at the start, or some operation of the run found its order
-- waiting for a payment of this amount, asked the gateway, was told that a transaction of this amount and
-- currency is completed, and found no other payment with that transaction's reference. Unique references stay
-- unique.
pub run_gateway-GatewayHistory :
    (ops : List GatewayOp) (db : Db) → GatewayHistory ops db (run_gateway ops db)
unfolding run_gateway
run_gateway-GatewayHistory [] db = record {
  follow = λ k p found. (p, found, PaymentFollows-refl p);
  paid = λ k q found e. inl found;
  unique = λ h. h;
}
run_gateway-GatewayHistory (op ∷ ops) db =
    let t : Db = run_gateway_op op db in
    let first : Gatewayed (gateway_of op) db t = run_gateway_op-Gatewayed op db in
    let rest : GatewayHistory ops t (run_gateway ops t) = run_gateway-GatewayHistory ops t in
    record {
      follow =
          PaymentsFollow-trans db.payments t.payments (run_gateway ops t).payments first.follow
            rest.follow;
      paid = λ k q found e. elim (rest.paid k q found e) [
        | inr was ↦ inr (later_paid op ops db k q was)
        | inl there ↦ elim (first.proven k q there e) [
          | inl before ↦ inl before
          | inr proven ↦ inr (first_paid op ops db k q proven)
        ]
      ];
      unique = λ h. rest.unique (first.unique h);
    }
