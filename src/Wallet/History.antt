-- ===== src/Wallet/History.antt =====
-- Any sequence of requests and decisions, each in its transaction: one that fails is rolled back.
use mathlib.Core.Path.{subst}
use drip_marketplace.Prelude.{
  ℕ, ◌+◌, ◌≡◌, refl, ◌∙◌, inl, inr, Bool, true, false, Option, some, List, [], ◌∷◌, arith,
}
use drip_marketplace.Db.{
  Db, Tx, Text, Payout, PayoutStatus, Ends, Ends-weaken, Ends-after, after, lookup, total,
}
use drip_marketplace.Commission.Release.Conserves.{available_total}
use drip_marketplace.Commission.Refund.Allocated.{AnyError}
use drip_marketplace.Wallet.{PayoutReview, request_withdrawal}
use drip_marketplace.Wallet.Decision.{approve_payout, reject_payout, complete_payout}
use drip_marketplace.Wallet.Payouts.{
  Step, Follows, outstanding, PayoutBooks, Reviewed, Reviewed-refl,
}
use drip_marketplace.Wallet.Review.{approve-Reviewed, reject-Reviewed, complete-Reviewed}
use drip_marketplace.Wallet.Requests.{Requested, request_withdrawal-Requested}

pub data PayoutOp : Type 0 where
  request : ℕ → ℕ → ℕ → PayoutOp
  approve : ℕ → ℕ → Option Text → Option PayoutReview → PayoutOp
  reject : ℕ → ℕ → Text → Option PayoutReview → PayoutOp
  complete : ℕ → ℕ → ℕ → Text → Option Text → Option PayoutReview → PayoutOp

unfoldable pub run_payout : PayoutOp → Tx (Unit {0})
run_payout (PayoutOp.request seller amount account) = request_withdrawal seller amount account
run_payout (PayoutOp.approve id admin note review) = approve_payout id admin note review
run_payout (PayoutOp.reject id admin note review) = reject_payout id admin note review
run_payout (PayoutOp.complete now id admin reference note review) =
    complete_payout now id admin reference note review

unfoldable pub run_payouts : List PayoutOp → Db → Db
run_payouts [] db = db
run_payouts (op ∷ ops) db = run_payouts ops (after (run_payout op) db)

-- Any number of steps.
pub data Steps : PayoutStatus → PayoutStatus → Type 0 where
  stay : {s : PayoutStatus} → Steps s s
  then_step : {s t u : PayoutStatus} → Step s t → Steps t u → Steps s u

pub is_final : PayoutStatus → Bool
is_final PayoutStatus.completed = true
is_final PayoutStatus.rejected = true
is_final _ = false

-- What becomes of a payout: it keeps its terms, its status goes through steps, and once it is completed or
-- rejected it does not change at all.
pub record Leads (p q : Payout) : Type 0 where
  pub seller_id : q.seller_id ≡ p.seller_id
  pub amount : q.amount ≡ p.amount
  pub destination : (q.payment_method ≡ p.payment_method) × (q.payment_detail ≡ p.payment_detail)
  pub steps : Steps p.status q.status
  pub final : is_final p.status ≡ true → q ≡ p

pub record History (db db' : Db) : Type 0 where
  pub books : PayoutBooks db'
  pub leads :
      (id : ℕ) (p : Payout)
      → lookup id db.payouts ≡ some p
      → (q : Payout) × (lookup id db'.payouts ≡ some q) × Leads p q
  pub money :
      available_total db' + total outstanding db'.payouts
      ≡ available_total db + total outstanding db.payouts

final-Step : (s t : PayoutStatus) → is_final s ≡ true → Step s t → ⊥
unfolding is_final
final-Step s t e Step.approve = ground arith
final-Step s t e Step.reject_request = ground arith
final-Step s t e Step.reject_approved = ground arith
final-Step s t e Step.complete_approved = ground arith
final-Step s t e Step.complete_processing = ground arith

Follows-Leads : (p q r : Payout) → Follows p q → Leads q r → Leads p r
Follows-Leads p q r f l = record {
  seller_id = l.seller_id ∙ f.seller_id;
  amount = l.amount ∙ f.amount;
  destination = (l.destination.0 ∙ f.method, l.destination.1 ∙ f.detail);
  steps = elim f.step [
    | inl same ↦ subst (λ (x : Payout). Steps x.status r.status) same l.steps
    | inr st ↦ Steps.then_step st l.steps
  ];
  final = λ e. elim f.step [
    | inl same ↦ l.final (rw same e) ∙ same
    | inr st ↦ absurd (final-Step p.status q.status e st)
  ];
}

run_payout-Reviewed :
    (op : PayoutOp) (db : Db)
    → PayoutBooks db
    → Ends (λ _ db'. Reviewed db db') AnyError (run_payout op db)
unfolding run_payout
run_payout-Reviewed (PayoutOp.request seller amount account) db b =
    Ends-weaken (λ _ db'. Requested seller amount db db') (λ _ db'. Reviewed db db') AnyError
      AnyError (request_withdrawal seller amount account db)
      (request_withdrawal-Requested seller amount account db b) (λ _ _ r. r.reviewed) (λ _ _. tt)
run_payout-Reviewed (PayoutOp.approve id admin note review) db b =
    approve-Reviewed id admin review db b note
run_payout-Reviewed (PayoutOp.reject id admin note review) db b =
    reject-Reviewed id admin review db b note
run_payout-Reviewed (PayoutOp.complete now id admin reference note review) db b =
    complete-Reviewed id admin review db b now reference note

-- Whatever requests and decisions are made, in any order and with any outcome: every payout keeps its
-- seller, amount and destination and only takes steps of the review, a completed or rejected payout never
-- changes, and the withdrawable balances and the payouts that are not rejected add up to what they did.
pub run_payouts-History :
    (ops : List PayoutOp) (db : Db) → PayoutBooks db → History db (run_payouts ops db)
unfolding run_payouts
run_payouts-History [] db b = record {
  books = b;
  leads = λ id p found. (
    p,
    found,
    record {
      seller_id = refl;
      amount = refl;
      destination = (refl, refl);
      steps = Steps.stay;
      final = λ _. refl;
    },
  );
  money = refl;
}
run_payouts-History (op ∷ ops) db b =
    let first : Reviewed db (after (run_payout op) db) =
      Ends-after Reviewed AnyError (run_payout op) db (Reviewed-refl db b)
        (run_payout-Reviewed op db b) in
    let rest : History (after (run_payout op) db) (run_payouts ops (after (run_payout op) db)) =
      run_payouts-History ops (after (run_payout op) db) first.books in
    record {
      books = rest.books;
      leads = λ id p found.
          let (q, there, f) = first.follow id p found in
          let (r, last, l) = rest.leads id q there in (r, last, Follows-Leads p q r f l);
      money = rest.money ∙ first.money;
    }
