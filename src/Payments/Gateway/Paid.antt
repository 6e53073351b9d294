-- ===== src/Payments/Gateway/Paid.antt =====
-- What the operations with the payment gateway may do to the payments.
use mathlib.Core.Path.{subst}
use drip_marketplace.Prelude.{
  ℕ, ◌≡◌, refl, sym, ap, ◌∙◌, ◌⊎◌, inl, inr, true, false, Option, none, some, List, arith, ◌==◌,
  Bool-cases, Option-cases, ==→eq, if◌then◌else◌,
}
use drip_marketplace.Db.{
  Db, Text, Order, Payment, lookup, insert, modify, lookup-insert, lookup-modify,
}
use drip_marketplace.Texts.{is_blank}
use drip_marketplace.Payments.Gateway.{
  Reply, Gateway, Outcome, reply_outcome, text_of, money_matches,
}
use drip_marketplace.Payments.Gateway.Reconcile.{PaymentRow, is_paid, awaits_payment}

abbrev pub reference_of : Option Payment → Option Text
reference_of none = none
reference_of (some p) = p.gateway_reference

abbrev pub reference_at : ℕ → List PaymentRow → Option Text
reference_at k t = reference_of (lookup k t)

-- No two payments have the same reference of the gateway.
abbrev pub HasUniqueReferences : List PaymentRow → Type 0
HasUniqueReferences t =
    (j k : ℕ) (r : Text) → reference_at j t ≡ some r → reference_at k t ≡ some r → j ≡ k

-- A payment keeps its terms, and once it is paid it does not change.
pub record PaymentFollows (p q : Payment) : Type 0 where
  pub amount : q.amount ≡ p.amount
  pub currency : q.currency ≡ p.currency
  pub paid : is_paid p.status ≡ true → q ≡ p

pub PaymentFollows-refl : (p : Payment) → PaymentFollows p p
PaymentFollows-refl p = record { amount = refl; currency = refl; paid = λ _. refl }

abbrev pub PaymentsFollow : List PaymentRow → List PaymentRow → Type 0
PaymentsFollow t u =
    (k : ℕ) (p : Payment)
    → lookup k t ≡ some p
    → (q : Payment) × (lookup k u ≡ some q) × PaymentFollows p q

PaymentFollows-trans :
    (p q r : Payment) → PaymentFollows p q → PaymentFollows q r → PaymentFollows p r
PaymentFollows-trans p q r f g = record {
  amount = g.amount ∙ f.amount;
  currency = g.currency ∙ f.currency;
  paid = λ e. g.paid (rw (f.paid e) e) ∙ f.paid e;
}

pub PaymentsFollow-trans :
    (t u v : List PaymentRow) → PaymentsFollow t u → PaymentsFollow u v → PaymentsFollow t v
PaymentsFollow-trans t u v f g k p found =
    let (q, there, a) = f k p found in
    let (r, last, b) = g k q there in (r, last, PaymentFollows-trans p q r a b)

-- Nothing is paid by this.
pub record Quiet (t u : List PaymentRow) : Type 0 where
  pub follow : PaymentsFollow t u
  pub paid :
      (k : ℕ) (q : Payment) → lookup k u ≡ some q → is_paid q.status ≡ true → lookup k t ≡ some q
  pub references : (k : ℕ) → reference_at k u ≡ reference_at k t

pub Quiet-refl : (t : List PaymentRow) → Quiet t t
Quiet-refl t = record {
  follow = λ k p found. (p, found, PaymentFollows-refl p);
  paid = λ k q found _. found;
  references = λ k. refl;
}

pub Quiet-trans : (t u v : List PaymentRow) → Quiet t u → Quiet u v → Quiet t v
Quiet-trans t u v f g = record {
  follow = PaymentsFollow-trans t u v f.follow g.follow;
  paid = λ k q found e. f.paid k q (g.paid k q found e) e;
  references = λ k. g.references k ∙ f.references k;
}

-- A change that leaves the terms and the reference, of a payment that is not paid before or after.
pub record IsQuietChange (p q : Payment) : Type 0 where
  pub amount : q.amount ≡ p.amount
  pub currency : q.currency ≡ p.currency
  pub reference : q.gateway_reference ≡ p.gateway_reference
  pub open_before : is_paid p.status ≡ false
  pub open_after : is_paid q.status ≡ false

IsQuietChange-Follows : (p q : Payment) → IsQuietChange p q → PaymentFollows p q
IsQuietChange-Follows p q c = record {
  amount = c.amount;
  currency = c.currency;
  paid = λ e. absurd (ground (arith, c.open_before, e));
}

module _ (id : ℕ) (f : Payment → Payment) (t : List PaymentRow) where
  modified_at :
      (p : Payment) (k : ℕ)
      → lookup k t ≡ some p
      → lookup k (modify id f t) ≡ some (if id == k then f p else p)
  modified_at p k found = ground (arith, lookup-modify id k f t, found)

  modified_none : (k : ℕ) → lookup k t ≡ none → lookup k (modify id f t) ≡ none
  modified_none k found = ground (arith, lookup-modify id k f t, found)

  -- Every payment that the change may meet is as described.
  module _ (c : (p : Payment) → lookup id t ≡ some p → IsQuietChange p (f p)) where
    change_at :
        (p : Payment) (k : ℕ) → lookup k t ≡ some p → (id == k) ≡ true → IsQuietChange p (f p)
    change_at p k found same = c p (subst (λ j. lookup j t ≡ some p) (sym (==→eq id k same)) found)

    pub Quiet-modify : Quiet t (modify id f t)
    Quiet-modify = record {
      follow = λ k p found. elim (Bool-cases (id == k)) [
        | inl same ↦ (
          f p,
          ground (arith, modified_at p k found, same),
          IsQuietChange-Follows p (f p) (change_at p k found same),
        )
        | inr apart ↦ (p, ground (arith, modified_at p k found, apart), PaymentFollows-refl p)
      ];
      paid = λ k q found e. elim (Option-cases (lookup k t)) [
        | inl missing ↦ absurd (ground (arith, modified_none k missing, found))
        | inr (p, there) ↦ elim (Bool-cases (id == k)) [
          | inl same ↦
              let eq : f p ≡ q = ground (arith, modified_at p k there, same, found) in
              absurd (
                ground (
                  arith,
                  (change_at p k there same).open_after,
                  subst (λ x. is_paid x.status ≡ true) (sym eq) e,
                ))
          | inr apart ↦ ground (arith, modified_at p k there, apart, found, there)
        ]
      ];
      references = λ k. elim (Option-cases (lookup k t)) [
        | inl missing ↦ rw (modified_none k missing, missing) refl
        | inr (p, there) ↦ elim (Bool-cases (id == k)) [
          | inl same ↦ rw (modified_at p k there, there, same) (change_at p k there same).reference
          | inr apart ↦ rw (modified_at p k there, there, apart) refl
        ]
      ];
    }

-- A new payment that has no reference and is not paid.
pub Quiet-insert :
    (id : ℕ) (v : Payment) (t : List PaymentRow)
    → lookup id t ≡ none
    → is_paid v.status ≡ false
    → v.gateway_reference ≡ none
    → Quiet t (insert id v t)
Quiet-insert id v t fresh unpaid blank = record {
  follow = λ k p found. elim (Bool-cases (id == k)) [
    | inl same ↦
        absurd (ground (arith, found, subst (λ j. lookup j t ≡ none) (==→eq id k same) fresh))
    | inr apart ↦ (p, ground (arith, lookup-insert id k v t, found, apart), PaymentFollows-refl p)
  ];
  paid = λ k q found e. elim (Bool-cases (id == k)) [
    | inl same ↦
        let eq : v ≡ q = ground (arith, lookup-insert id k v t, found, same) in
        absurd (ground (arith, unpaid, subst (λ x. is_paid x.status ≡ true) (sym eq) e))
    | inr apart ↦ ground (arith, lookup-insert id k v t, found, apart)
  ];
  references = λ k. elim (Bool-cases (id == k)) [
    | inl same ↦
        rw (lookup-insert id k v t, same, blank)
          (sym (ap reference_of (subst (λ j. lookup j t ≡ none) (==→eq id k same) fresh)))
    | inr apart ↦ rw (lookup-insert id k v t, apart) refl
  ];
}

-- The payment is paid by right: its order was waiting for it and costs what it is over, the gateway has said that
-- a transaction of this amount and currency is completed, and no other payment had its reference.
pub record IsProven (gateway : Gateway) (k : ℕ) (q : Payment) (db : Db) : Type 0 where
  pub order : Order
  pub found : lookup k db.orders ≡ some order
  pub awaiting : awaits_payment order.status ≡ true
  pub due : (q.amount == order.total) ≡ true
  pub reply : Reply
  pub asked : (basket : Text) × (transaction : Text) × (gateway basket transaction ≡ some reply)
  pub completed : reply_outcome reply ≡ Outcome.completed
  pub money : money_matches reply q.amount q.currency ≡ true
  pub reference : q.gateway_reference ≡ some (text_of reply.transaction_id)
  pub named : is_blank (text_of reply.transaction_id) ≡ false
  pub unowned : (j : ℕ) → reference_at j db.payments ≡ some (text_of reply.transaction_id) → j ≡ k

-- A payment that is paid was so before, or is paid by right.
pub record Gatewayed (gateway : Gateway) (db u : Db) : Type 0 where
  pub follow : PaymentsFollow db.payments u.payments
  pub proven :
      (k : ℕ) (q : Payment)
      → lookup k u.payments ≡ some q
      → is_paid q.status ≡ true
      → (lookup k db.payments ≡ some q) ⊎ IsProven gateway k q db
  pub unique : HasUniqueReferences db.payments → HasUniqueReferences u.payments

pub Quiet-HasUniqueReferences :
    (t u : List PaymentRow) → Quiet t u → HasUniqueReferences t → HasUniqueReferences u
Quiet-HasUniqueReferences t u f h j k r a b =
    h j k r (sym (f.references j) ∙ a) (sym (f.references k) ∙ b)

pub Quiet-Gatewayed :
    (gateway : Gateway) (db u : Db) → Quiet db.payments u.payments → Gatewayed gateway db u
Quiet-Gatewayed gateway db u f = record {
  follow = f.follow;
  proven = λ k q found e. inl (f.paid k q found e);
  unique = Quiet-HasUniqueReferences db.payments u.payments f;
}

pub Gatewayed-then :
    (gateway : Gateway) (db t u : Db)
    → Gatewayed gateway db t
    → Quiet t.payments u.payments
    → Gatewayed gateway db u
Gatewayed-then gateway db t u g f = record {
  follow = PaymentsFollow-trans db.payments t.payments u.payments g.follow f.follow;
  proven = λ k q found e. g.proven k q (f.paid k q found e) e;
  unique = λ h. Quiet-HasUniqueReferences t.payments u.payments f (g.unique h);
}
