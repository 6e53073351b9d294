-- ===== src/Payments/Confirm/Recorded.antt =====
-- What a confirmation that is made now leaves.
use drip_marketplace.Prelude.{
  ℕ, ◌+◌, ◌≤◌, ◌≡◌, refl, ap, ◌∙◌, inl, inr, true, false, ◌&&◌, Option, none, some, arith, leb,
  is_some, if◌then◌else◌, Bool-cases,
}
use drip_marketplace.Db.{
  Db, Text, ok, Refund, Return, ReturnStatus, Payment, Ends, Ends-then, Ends-guard, lookup,
  lookup-modify_self, modify, total, total-modify, ◌>>=◌,
}
use drip_marketplace.Commission.Ledger.Charged.{Books}
use drip_marketplace.Commission.Settle.Once.{Books-tables}
use drip_marketplace.Commission.Refund.{Target, reverse_for_refund}
use drip_marketplace.Commission.Refund.Allocated.{AnyError}
use drip_marketplace.Commission.Refund.Frame.{Touches, reverse_for_refund-Touches}
use drip_marketplace.Orders.Closed.{stock_total}
use drip_marketplace.Returns.{has_status}
use drip_marketplace.Payments.{total_refunded}
use drip_marketplace.Payments.Confirm.{
  ConfirmReview, is_other_refund, is_bad_return, is_refund_blocked, take_back, confirmed,
  store_confirmed, target_of, confirmed_part, total_confirmed, refunded_payment, store_refunded,
  close_payment, confirm_now,
}
use drip_marketplace.Payments.Confirm.Restocked.{
  units_back, returns_back, TakenBack, take_back-TakenBack,
}

-- A return that is paid back was received before.
abbrev pub WasReceived : Option ℕ → Option Return → Type 0
WasReceived link returned =
    (id : ℕ) (q : Return)
    → link ≡ some id
    → returned ≡ some q
    → has_status ReturnStatus.received q ≡ true

good_return_received :
    (payment_id : ℕ) (link : Option ℕ) (returned : Option Return)
    → (is_some link && is_bad_return payment_id returned) ≡ false
    → WasReceived link returned
good_return_received payment_id none returned good id q e there = absurd (ground arith)
good_return_received payment_id (some k) none good id q e there = absurd (ground arith)
good_return_received payment_id (some k) (some p) good id q e there = ground arith

unblocked_received :
    (r : Refund) (payment : Payment) (returned : Option Return) (reserved : ℕ)
    → is_refund_blocked r payment returned reserved ≡ false
    → WasReceived r.return_id returned
unfolding is_refund_blocked
unblocked_received r payment returned reserved free =
    good_return_received r.order_id r.return_id returned (ground arith)

-- What a confirmation leaves: its return was received, the refund has the transfer's reference, the units of its return are in the stock
-- and the return is refunded, the payment is refunded exactly when all of it has been confirmed, and the books of
-- the sellers are valid.
pub record Confirmed (now admin : ℕ) (reference : Text) (id : ℕ) (r : Refund) (payment : Payment)
    (returned : Option Return) (db db' : Db) : Type 0 where
  pub recorded : lookup id db'.refunds ≡ some (confirmed now admin reference r)
  pub stock : stock_total db' ≡ stock_total db + units_back r.return_id returned
  pub returns : db'.returns ≡ returns_back now r.return_id returned db.returns
  pub orders : db'.orders ≡ db.orders
  pub total_grows : total_confirmed r.order_id db' ≡ total_confirmed r.order_id db + r.amount
  pub payments : db'.payments ≡ (
      if leb payment.amount (total_confirmed r.order_id db')
      then modify r.order_id refunded_payment db.payments
      else db.payments)
  pub books : Books db'
  pub later : db.next_id ≤ db'.next_id
  pub received : WasReceived r.return_id returned

close_payment_lem :
    (payment_id : ℕ) (payment : Payment) (db : Db)
    → close_payment payment_id payment db
      ≡ ok tt (
          if leb payment.amount (total_confirmed payment_id db)
          then store_refunded payment_id db
          else db)
unfolding close_payment
close_payment_lem payment_id payment db =
    elim (Bool-cases (leb payment.amount (total_confirmed payment_id db))) [
      | inl whole ↦ rw (whole, ◌>>=◌) refl
      | inr part ↦ rw (part, ◌>>=◌) refl
    ]

module _ (now admin : ℕ) (reference : Text) (id : ℕ) (r : Refund) (payment : Payment)
    (returned : Option Return) (db : Db) (b : Books db) (found : lookup id db.refunds ≡ some r)
    (waiting : is_some r.processed_at ≡ false) where
  abbrev Ok : Unit {0} → Db → Type 0
  Ok _ db' = Confirmed now admin reference id r payment returned db db'

  newly_counted :
      total_confirmed r.order_id (store_confirmed now id admin reference db)
      ≡ total_confirmed r.order_id db + r.amount
  newly_counted = ground (
    arith,
    total-modify (confirmed_part r.order_id) id (confirmed now admin reference) r db.refunds found,
  )

  -- The database after the sellers are charged.
  record Charged (u : Db) : Type 0 where
    refunds : u.refunds ≡ modify id (confirmed now admin reference) db.refunds
    stock : stock_total u ≡ stock_total db + units_back r.return_id returned
    returns : u.returns ≡ returns_back now r.return_id returned db.returns
    orders : u.orders ≡ db.orders
    payments : u.payments ≡ db.payments
    books : Books u
    later : db.next_id ≤ u.next_id

  Touches-Charged :
      (t u : Db)
      → TakenBack now r.return_id returned db t
      → Touches (store_confirmed now id admin reference t) u
      → Charged u
  Touches-Charged t u back touched = record {
    refunds =
        ap (λ (x : Db). x.refunds) touched.frame
        ∙ ap (λ (x : Db). modify id (confirmed now admin reference) x.refunds) back.frame;
    stock = ap stock_total touched.frame ∙ back.stock;
    returns = ap (λ (x : Db). x.returns) touched.frame ∙ back.returns;
    orders = ap (λ (x : Db). x.orders) touched.frame ∙ ap (λ (x : Db). x.orders) back.frame;
    payments = ap (λ (x : Db). x.payments) touched.frame ∙ ap (λ (x : Db). x.payments) back.frame;
    books = touched.books;
    later = omega (arith, touched.later, ap (λ (x : Db). x.next_id) back.frame);
  }

  recorded_in : (u : Db) → Charged u → lookup id u.refunds ≡ some (confirmed now admin reference r)
  recorded_in u c =
      rw c.refunds (lookup-modify_self id (confirmed now admin reference) r db.refunds found)

  counted_in :
      (u : Db) → Charged u → total_confirmed r.order_id u ≡ total_confirmed r.order_id db + r.amount
  counted_in u c = ap (total (confirmed_part r.order_id)) c.refunds ∙ newly_counted

  close_payment-Confirmed :
      (u : Db)
      → WasReceived r.return_id returned
      → Charged u
      → Ends Ok AnyError (close_payment r.order_id payment u)
  close_payment-Confirmed u got c =
      elim (Bool-cases (leb payment.amount (total_confirmed r.order_id u))) [
        | inl whole ↦
            rw (close_payment_lem r.order_id payment u, whole)
              (record {
                recorded = recorded_in u c;
                stock = c.stock;
                returns = c.returns;
                orders = c.orders;
                total_grows = counted_in u c;
                payments = rw whole (ap (modify r.order_id refunded_payment) c.payments);
                books = Books-tables u (store_refunded r.order_id u) c.books refl refl;
                later = c.later;
                received = got;
              })
        | inr part ↦
            rw (close_payment_lem r.order_id payment u, part)
              (record {
                recorded = recorded_in u c;
                stock = c.stock;
                returns = c.returns;
                orders = c.orders;
                total_grows = counted_in u c;
                payments = rw part c.payments;
                books = c.books;
                later = c.later;
                received = got;
              })
      ]

  pub confirm_now-Confirmed :
      (review : ConfirmReview)
      → Ends Ok AnyError (confirm_now now id admin reference review r returned payment db)
  unfolding confirm_now
  confirm_now-Confirmed review =
      Ends-guard Ok AnyError db (is_other_refund review r) _ _ (λ _. tt)
        (λ _.
          Ends-guard Ok AnyError db
            (is_refund_blocked r payment returned (total_refunded r.order_id db)) _ _ (λ _. tt)
            (λ free.
              Ends-then (take_back now r.order_id r.return_id returned)
                (λ _ t. TakenBack now r.return_id returned db t) Ok AnyError db _
                (take_back-TakenBack now r.order_id r.return_id returned db)
                (λ _ t back.
                  let stored : Db = store_confirmed now id admin reference t in
                  let target : Target = target_of r.order_id returned in
                  let kept : Books stored =
                    Books-tables db stored b (ap (λ (x : Db). x.ledgers) back.frame)
                      (ap (λ (x : Db). x.allocations) back.frame) in
                  Ends-then (reverse_for_refund now id target r.amount) (λ _ u. Touches stored u) Ok
                    AnyError stored _
                    (reverse_for_refund-Touches now id r.amount target stored kept)
                    (λ _ u touched.
                      close_payment-Confirmed u
                        (unblocked_received r payment returned (total_refunded r.order_id db) free)
                        (Touches-Charged t u back touched)))))
