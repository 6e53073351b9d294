-- ===== src/Payments/Frame.antt =====
-- A refund request writes refunds only.
use drip_marketplace.Prelude.{
  ℕ, ◌+◌, ◌-◌, ◌≤◌, ◌≡◌, refl, inl, inr, not, ◌||◌, Option, none, some, arith, ltb, ◌==◌, is_some,
  Bool-cases,
}
use drip_marketplace.Db.{
  Db, Payment, is_completed, Ends, Ends-then, Ends-guard, Ends-require, lookup,
}
use drip_marketplace.Commission.Refund.Allocated.{AnyError}
use drip_marketplace.Texts.{same_text, same_optional}
use drip_marketplace.Payments.{
  RefundRow, RefundRequest, pkr, find_request, total_refunded, link_to, link_return, reuse_request,
  is_other, request_new, reuse_or_request, refund,
}

-- Only the refunds change, and new identifiers are taken.
pub record OnlyRefunds (db t : Db) : Type 0 where
  pub frame : t ≡ record db { refunds = t.refunds; next_id = t.next_id }
  pub later : db.next_id ≤ t.next_id

module _ (db : Db) where
  nothing : OnlyRefunds db db
  nothing = record { frame = refl; later = omega arith }

  link_to-OnlyRefunds :
      (id : ℕ) (row : RefundRow) (old : Option ℕ)
      → Ends (λ _ t. OnlyRefunds db t) AnyError (link_to id row old db)
  unfolding link_to
  link_to-OnlyRefunds id row (some other) = elim (Bool-cases (not (other == id))) [
    | inl apart ↦ rw (apart, Ends) tt
    | inr same ↦ rw (same, Ends) nothing
  ]
  link_to-OnlyRefunds id row none =
      Ends-guard (λ _ t. OnlyRefunds db t) AnyError db (is_some row.1.processed_at) _ _ (λ _. tt)
        (λ _. record { frame = refl; later = omega arith })

  link_return-OnlyRefunds :
      (asked : Option ℕ) (row : RefundRow)
      → Ends (λ _ t. OnlyRefunds db t) AnyError (link_return asked row db)
  link_return-OnlyRefunds none row = nothing
  link_return-OnlyRefunds (some id) row = link_to-OnlyRefunds id row row.1.return_id

  module _ (payment_id : ℕ) (request : RefundRequest) (asked : Option ℕ) where
    abbrev Ok : ℕ → Db → Type 0
    Ok _ t = OnlyRefunds db t

    request_new-OnlyRefunds :
        (payment : Payment) → Ends Ok AnyError (request_new payment_id request asked payment db)
    unfolding request_new
    request_new-OnlyRefunds payment =
        Ends-guard Ok AnyError db (not (is_completed payment.status)) _ _ (λ _. tt)
          (λ _.
            Ends-guard Ok AnyError db (not (same_text payment.currency pkr)) _ _ (λ _. tt)
              (λ _.
                Ends-guard Ok AnyError db
                  (is_other request.expected_remaining
                    (payment.amount - total_refunded payment_id db))
                  _ _ (λ _. tt)
                  (λ _.
                    Ends-guard Ok AnyError db
                      (ltb payment.amount (request.amount + total_refunded payment_id db)) _ _
                      (λ _. tt) (λ _. record { frame = refl; later = omega arith }))))

    reuse_request-OnlyRefunds :
        (row : RefundRow) → Ends Ok AnyError (reuse_request request asked row db)
    unfolding reuse_request
    reuse_request-OnlyRefunds row =
        Ends-guard Ok AnyError db
          (not (row.1.amount == request.amount)
            || not (same_optional row.1.reason (some request.reason)))
          _ _ (λ _. tt)
          (λ _.
            Ends-then (link_return asked row) (λ _ t. OnlyRefunds db t) Ok AnyError db _
              (link_return-OnlyRefunds asked row) (λ _ t h. h))

    reuse_or_request-OnlyRefunds :
        (payment : Payment) (existing : Option RefundRow)
        → Ends Ok AnyError (reuse_or_request payment_id request asked payment existing db)
    reuse_or_request-OnlyRefunds payment (some row) = reuse_request-OnlyRefunds row
    reuse_or_request-OnlyRefunds payment none = request_new-OnlyRefunds payment

    pub refund-OnlyRefunds : Ends Ok AnyError (refund payment_id request asked db)
    unfolding refund
    refund-OnlyRefunds =
        Ends-require Ok AnyError db (lookup payment_id db.payments) _ _ (λ _. tt)
          (λ payment _.
            reuse_or_request-OnlyRefunds payment
              (find_request payment_id request.idempotency_key db.refunds))
