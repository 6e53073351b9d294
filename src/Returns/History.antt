-- ===== src/Returns/History.antt =====
-- Any sequence of the operations on returns and on their disputes and refunds, each in its transaction: one that
-- fails is rolled back.
use mathlib.Core.Path.{subst}
use drip_marketplace.Prelude.{
  ℕ, ◌≤◌, ◌≡◌, refl, ◌∙◌, inl, inr, Bool, true, Option, none, some, List, [], ◌∷◌,
}
use drip_marketplace.Db.{Db, Text, Dispute, Return, ReturnStatus, ItemId, Ends-after, after, lookup}
use drip_marketplace.Commission.Refund.Allocated.{AnyError}
use drip_marketplace.Commission.Ledger.Charged.{Books}
use drip_marketplace.Payments.Confirm.{ConfirmReview, confirm_refund}
use drip_marketplace.Returns.{
  ReturnReview, seller_approve_return, seller_reject_return, seller_mark_received, approve_return,
  reject_return, mark_received,
}
use drip_marketplace.Returns.Request.{
  ReturnRequest, claimed, find_item, request_return, request_guest_return,
}
use drip_marketplace.Returns.Disputes.{
  DisputeReview, is_settled, open_dispute, add_message, add_admin_message, resolve_dispute,
}
use drip_marketplace.Returns.Refund.{process_refund}
use drip_marketplace.Returns.Claims.{purchased}
use drip_marketplace.Returns.Steps.{
  View, view, Step, Move, Follows, ReturnBooks, Handled, Handled-refl,
}
use drip_marketplace.Returns.Decided.{by_admin-Handled, by_seller-Handled}
use drip_marketplace.Returns.Requested.{request_return-Handled, request_guest_return-Handled}
use drip_marketplace.Returns.Disputed.{
  open_dispute-Handled, add_message-Handled, add_admin_message-Handled, resolve_dispute-Handled,
}
use drip_marketplace.Returns.Refunded.{process_refund-Handled}
use drip_marketplace.Returns.PaidBack.{confirm_refund-Handled}

pub data ReturnOp : Type 0 where
  request : Bool → ℕ → ReturnRequest → ReturnOp
  guest_request : Option Bool → ReturnRequest → ReturnOp
  seller_approve : ℕ → ℕ → Option Text → ReturnOp
  seller_reject : ℕ → ℕ → Option Text → ReturnOp
  seller_receive : ℕ → ℕ → Option Text → ReturnOp
  approve : ℕ → ReturnReview → ReturnOp
  reject : ℕ → ReturnReview → ReturnOp
  receive : ℕ → ReturnReview → ReturnOp
  dispute : Bool → ℕ → ℕ → Text → ReturnOp
  write : ℕ → ℕ → Text → ReturnOp
  answer : ℕ → ℕ → Text → DisputeReview → ReturnOp
  resolve : ℕ → ℕ → Text → DisputeReview → Bool → ReturnOp
  refund : ℕ → ReturnReview → ReturnOp
  confirm : ℕ → ℕ → ℕ → Text → ConfirmReview → ReturnOp

unfoldable pub run_return : ReturnOp → Db → Db
run_return (ReturnOp.request account_open user_id asked) db =
    after (request_return account_open user_id asked) db
run_return (ReturnOp.guest_request token asked) db = after (request_guest_return token asked) db
run_return (ReturnOp.seller_approve id seller text) db =
    after (seller_approve_return id seller text) db
run_return (ReturnOp.seller_reject id seller text) db =
    after (seller_reject_return id seller text) db
run_return (ReturnOp.seller_receive id seller text) db =
    after (seller_mark_received id seller text) db
run_return (ReturnOp.approve id review) db = after (approve_return id review) db
run_return (ReturnOp.reject id review) db = after (reject_return id review) db
run_return (ReturnOp.receive id review) db = after (mark_received id review) db
run_return (ReturnOp.dispute account_open id user_id body) db =
    after (open_dispute account_open id user_id body) db
run_return (ReturnOp.write id sender body) db = after (add_message id sender body) db
run_return (ReturnOp.answer id admin body review) db =
    after (add_admin_message id admin body review) db
run_return (ReturnOp.resolve id admin text review for_customer) db =
    after (resolve_dispute id admin text review for_customer) db
run_return (ReturnOp.refund id review) db = after (process_refund id review) db
run_return (ReturnOp.confirm now id admin reference review) db =
    after (confirm_refund now id admin reference review) db

unfoldable pub run_returns : List ReturnOp → Db → Db
run_returns [] db = db
run_returns (op ∷ ops) db = run_returns ops (run_return op db)

-- Each operation is one move and keeps the books.
run_return-Handled :
    (op : ReturnOp) (db : Db) → ReturnBooks db → Books db → Handled db (run_return op db)
unfolding run_return seller_approve_return seller_reject_return seller_mark_received approve_return
    reject_return mark_received
run_return-Handled (ReturnOp.request account_open user_id asked) db b a =
    Ends-after Handled AnyError (request_return account_open user_id asked) db (Handled-refl db b)
      (request_return-Handled account_open user_id asked db b)
run_return-Handled (ReturnOp.guest_request token asked) db b a =
    Ends-after Handled AnyError (request_guest_return token asked) db (Handled-refl db b)
      (request_guest_return-Handled token asked db b)
run_return-Handled (ReturnOp.seller_approve id seller text) db b a =
    Ends-after Handled AnyError (seller_approve_return id seller text) db (Handled-refl db b) (
      by_seller-Handled ReturnStatus.requested ReturnStatus.approved Step.approve refl id db b
        seller text)
run_return-Handled (ReturnOp.seller_reject id seller text) db b a =
    Ends-after Handled AnyError (seller_reject_return id seller text) db (Handled-refl db b) (
      by_seller-Handled ReturnStatus.requested ReturnStatus.rejected Step.reject refl id db b seller
        text)
run_return-Handled (ReturnOp.seller_receive id seller text) db b a =
    Ends-after Handled AnyError (seller_mark_received id seller text) db (Handled-refl db b) (
      by_seller-Handled ReturnStatus.approved ReturnStatus.received Step.receive refl id db b seller
        text)
run_return-Handled (ReturnOp.approve id review) db b a =
    Ends-after Handled AnyError (approve_return id review) db (Handled-refl db b) (
      by_admin-Handled ReturnStatus.requested ReturnStatus.approved Step.approve refl id db b
        review)
run_return-Handled (ReturnOp.reject id review) db b a =
    Ends-after Handled AnyError (reject_return id review) db (Handled-refl db b) (
      by_admin-Handled ReturnStatus.requested ReturnStatus.rejected Step.reject refl id db b review)
run_return-Handled (ReturnOp.receive id review) db b a =
    Ends-after Handled AnyError (mark_received id review) db (Handled-refl db b) (
      by_admin-Handled ReturnStatus.approved ReturnStatus.received Step.receive refl id db b review)
run_return-Handled (ReturnOp.dispute account_open id user_id body) db b a =
    Ends-after Handled AnyError (open_dispute account_open id user_id body) db (Handled-refl db b)
      (open_dispute-Handled id db b account_open user_id body)
run_return-Handled (ReturnOp.write id sender body) db b a =
    Ends-after Handled AnyError (add_message id sender body) db (Handled-refl db b)
      (add_message-Handled id db b sender body)
run_return-Handled (ReturnOp.answer id admin body review) db b a =
    Ends-after Handled AnyError (add_admin_message id admin body review) db (Handled-refl db b)
      (add_admin_message-Handled id db b admin body review)
run_return-Handled (ReturnOp.resolve id admin text review for_customer) db b a =
    Ends-after Handled AnyError (resolve_dispute id admin text review for_customer) db
      (Handled-refl db b) (resolve_dispute-Handled id db b admin text review for_customer)
run_return-Handled (ReturnOp.refund id review) db b a =
    Ends-after Handled AnyError (process_refund id review) db (Handled-refl db b)
      (process_refund-Handled id review db b)
run_return-Handled (ReturnOp.confirm now id admin reference review) db b a =
    Ends-after Handled AnyError (confirm_refund now id admin reference review) db
      (Handled-refl db b) (confirm_refund-Handled now db b id admin reference review a)

-- The runs of the abstract machine.
pub data Moves : View → View → Type 0 where
  stay : {v : View} → Moves v v
  then_move : {v w u : View} → Move v w → Moves w u → Moves v u

pub data Steps : ReturnStatus → ReturnStatus → Type 0 where
  stay : {s : ReturnStatus} → Steps s s
  then_step : {s t u : ReturnStatus} → Step s t → Steps t u → Steps s u

-- What becomes of a return in the end.
pub record Leads (p q : Return) : Type 0 where
  pub order_id : q.order_id ≡ p.order_id
  pub seller_order_id : q.seller_order_id ≡ p.seller_order_id
  pub user_id : q.user_id ≡ p.user_id
  pub items : q.items ≡ p.items
  pub steps : Steps p.status q.status
  pub settled : (d : Dispute) → p.dispute ≡ some d → is_settled d.status ≡ true → q.dispute ≡ some d

pub record ReturnHistory (db db' : Db) : Type 0 where
  pub moves : Moves (view db) (view db')
  pub leads :
      (id : ℕ) (p : Return)
      → lookup id db.returns ≡ some p
      → (q : Return) × (lookup id db'.returns ≡ some q) × Leads p q

Follows-Leads : (p q r : Return) → Follows p q → Leads q r → Leads p r
Follows-Leads p q r f l = record {
  order_id = l.order_id ∙ f.order_id;
  seller_order_id = l.seller_order_id ∙ f.seller_order_id;
  user_id = l.user_id ∙ f.user_id;
  items = l.items ∙ f.items;
  steps = elim f.step [
    | inl same ↦ subst (λ s. Steps s r.status) same l.steps
    | inr st ↦ Steps.then_step st l.steps
  ];
  settled = λ d there done. l.settled d (f.dispute d there done) done;
}

-- On valid books, whatever operations run, in any order and with any outcome: the statuses of the returns go
-- through moves of the abstract machine, which only files a request under a new identifier or takes one step
-- of one return (a request is approved or rejected, an approved return is received, a rejected one is approved
-- after all, and a received one is refunded), and every return stays, with its order, seller order, customer and
-- items, and with its dispute as it is once that is settled.
pub run_returns-ReturnHistory :
    (ops : List ReturnOp) (db : Db)
    → ReturnBooks db
    → Books db
    → ReturnHistory db (run_returns ops db)
unfolding run_returns
run_returns-ReturnHistory [] db b a = record {
  moves = Moves.stay;
  leads = λ id p found. (
    p,
    found,
    record {
      order_id = refl;
      seller_order_id = refl;
      user_id = refl;
      items = refl;
      steps = Steps.stay;
      settled = λ d there done. there;
    },
  );
}
run_returns-ReturnHistory (op ∷ ops) db b a =
    let first : Handled db (run_return op db) = run_return-Handled op db b a in
    let rest : ReturnHistory (run_return op db) (run_returns ops (run_return op db)) =
      run_returns-ReturnHistory ops (run_return op db) first.books (first.accounts a) in
    record {
      moves = Moves.then_move first.move rest.moves;
      leads = λ id p found.
          let (q, there, f) = first.follow id p found in
          let (r, last, l) = rest.leads id q there in (r, last, Follows-Leads p q r f l);
    }

same_purchased :
    (n : ℕ) (id : ItemId) (t db : Db)
    → t.orders ≡ db.orders
    → n ≤ purchased id t
    → n ≤ purchased id db
unfolding find_item
same_purchased n id t db same h = rw same at h

-- On valid books, whatever operations run, in any order and with any outcome: the returns of an item that are not
-- rejected never claim more units than were bought, and the books are valid again.
pub run_returns-IsWithin :
    (ops : List ReturnOp) (db : Db)
    → ReturnBooks db
    → Books db
    → ((id : ItemId) → claimed id none (run_returns ops db).returns ≤ purchased id db)
      × ReturnBooks (run_returns ops db)
      × Books (run_returns ops db)
unfolding run_returns
run_returns-IsWithin [] db b a = (b.within, b, a)
run_returns-IsWithin (op ∷ ops) db b a =
    let first : Handled db (run_return op db) = run_return-Handled op db b a in
    let (fits, books, accounts) =
      run_returns-IsWithin ops (run_return op db) first.books (first.accounts a) in
    (
      (λ id.
          same_purchased (claimed id none (run_returns ops (run_return op db)).returns) id
            (run_return op db) db first.orders (fits id)),
      books,
      accounts,
    )
