-- ===== src/Payments/Gateway/ByRight.antt =====
-- What a payment that is paid by right does to the others.
use mathlib.Core.Path.{subst}
use drip_marketplace.Prelude.{
  ℕ, ◌≡◌, sym, ap, ◌∙◌, ◌⊎◌, inl, inr, true, false, some, List, arith, ◌==◌, Bool-cases, ==→eq,
}
use drip_marketplace.Db.{Db, Text, Payment, lookup, modify, lookup-modify, lookup-modify_self}
use drip_marketplace.Payments.Gateway.{Gateway, text_of}
use drip_marketplace.Payments.Gateway.Reconcile.{PaymentRow, is_paid}
use drip_marketplace.Payments.Gateway.Paid.{
  reference_of, reference_at, HasUniqueReferences, PaymentsFollow, PaymentFollows,
  PaymentFollows-refl, IsProven, Gatewayed,
}

-- One payment is paid by right.
module _ (gateway : Gateway) (id : ℕ) (f : Payment → Payment) (p : Payment) (db : Db)
    (found : lookup id db.payments ≡ some p) (unpaid : is_paid p.status ≡ false)
    (same_amount : (f p).amount ≡ p.amount) (same_currency : (f p).currency ≡ p.currency)
    (proof : IsProven gateway id (f p) db) where
  abbrev after_pay : List PaymentRow
  after_pay = modify id f db.payments

  changed : (k : ℕ) → (id == k) ≡ true → lookup k after_pay ≡ some (f p)
  changed k same =
      subst (λ j. lookup j after_pay ≡ some (f p)) (==→eq id k same)
        (lookup-modify_self id f p db.payments found)

  unchanged : (k : ℕ) → (id == k) ≡ false → lookup k after_pay ≡ lookup k db.payments
  unchanged k apart = ground (arith, lookup-modify id k f db.payments)

  before_at : (k : ℕ) → (id == k) ≡ true → lookup k db.payments ≡ some p
  before_at k same = subst (λ j. lookup j db.payments ≡ some p) (==→eq id k same) found

  pay-PaymentsFollow : PaymentsFollow db.payments after_pay
  pay-PaymentsFollow k q there = elim (Bool-cases (id == k)) [
    | inr apart ↦ (q, unchanged k apart ∙ there, PaymentFollows-refl q)
    | inl same ↦
        let eq : p ≡ q = ground (arith, before_at k same, there) in
        (
          f p,
          changed k same,
          subst (λ x. PaymentFollows x (f p)) eq
              (record {
                amount = same_amount;
                currency = same_currency;
                paid = λ e. absurd (ground (arith, unpaid, e));
              }),
        )
  ]

  pay-IsProven :
      (k : ℕ) (q : Payment)
      → lookup k after_pay ≡ some q
      → is_paid q.status ≡ true
      → (lookup k db.payments ≡ some q) ⊎ IsProven gateway k q db
  pay-IsProven k q there e = elim (Bool-cases (id == k)) [
    | inr apart ↦ inl (sym (unchanged k apart) ∙ there)
    | inl same ↦
        let eq : f p ≡ q = ground (arith, changed k same, there) in
        inr (
          subst (λ j. IsProven gateway j q db) (==→eq id k same)
            (subst (λ x. IsProven gateway id x db) eq proof))
  ]

  -- Whoever has the new reference now is this payment.
  is_new_owner :
      (j : ℕ) → reference_at j after_pay ≡ some (text_of proof.reply.transaction_id) → id ≡ j
  is_new_owner j e = elim (Bool-cases (id == j)) [
    | inl same ↦ ==→eq id j same
    | inr apart ↦ sym (proof.unowned j (sym (ap reference_of (unchanged j apart)) ∙ e))
  ]

  new_reference :
      (j : ℕ) (r : Text)
      → (id == j) ≡ true
      → reference_at j after_pay ≡ some r
      → text_of proof.reply.transaction_id ≡ r
  new_reference j r same e = ground (arith, proof.reference, ap reference_of (changed j same), e)

  pay-HasUniqueReferences : HasUniqueReferences db.payments → HasUniqueReferences after_pay
  pay-HasUniqueReferences h j k r a b = elim (Bool-cases (id == j)) [
    | inl first ↦
        sym (==→eq id j first)
        ∙ is_new_owner k
            (subst (λ x. reference_at k after_pay ≡ some x) (sym (new_reference j r first a)) b)
    | inr apart ↦ elim (Bool-cases (id == k)) [
      | inl second ↦
          sym (
            is_new_owner j
              (subst (λ x. reference_at j after_pay ≡ some x) (sym (new_reference k r second b)) a))
          ∙ ==→eq id k second
      | inr others ↦
          h j k r (sym (ap reference_of (unchanged j apart)) ∙ a)
            (sym (ap reference_of (unchanged k others)) ∙ b)
    ]
  ]

  pub pay-Gatewayed : (u : Db) → u.payments ≡ after_pay → Gatewayed gateway db u
  pay-Gatewayed u same = record {
    follow = rw same pay-PaymentsFollow;
    proven = λ k q there. pay-IsProven k q (ap (lookup k) (sym same) ∙ there);
    unique = λ h. rw same (pay-HasUniqueReferences h);
  }
