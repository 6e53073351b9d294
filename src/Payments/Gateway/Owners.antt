-- ===== src/Payments/Gateway/Owners.antt =====
-- Who has a reference of the gateway (`get_by_gateway_reference`).
use drip_marketplace.Prelude.{
  ℕ, ◌≡◌, refl, ap, inl, inr, Bool, true, Option, some, List, [], ◌∷◌, arith, ◌==◌, Bool-cases,
  ==→eq,
}
use drip_marketplace.Db.{Db, Text, Payment, Ends, lookup}
use drip_marketplace.Texts.{same_optional}
use drip_marketplace.Commission.Refund.Allocated.{AnyError}
use drip_marketplace.Payments.Retried.{same_optional_refl}
use drip_marketplace.Payments.Gateway.Reconcile.{PaymentRow, owners, only_owner, find_by_reference}
use drip_marketplace.Payments.Gateway.Paid.{reference_at}

module _ (reference : Text) where
  abbrev has_it : Payment → Bool
  has_it p = same_optional p.gateway_reference (some reference)

  has_it_by : (p : Payment) → p.gateway_reference ≡ some reference → has_it p ≡ true
  has_it_by p e = rw e (same_optional_refl reference)

  nobody :
      (k : ℕ) (t : List PaymentRow)
      → owners reference t ≡ []
      → reference_at k t ≡ some reference
      → ⊥
  unfolding owners lookup
  nobody k [] h e = ground arith
  nobody k ((j, p) ∷ t) h e = elim (Bool-cases (has_it p)) [
    | inl its ↦ ground arith
    | inr other ↦ elim (Bool-cases (j == k)) [
      | inl same ↦ ground (arith, has_it_by p (rw same at e))
      | inr apart ↦ nobody k t (rw other at h) (rw apart at e)
    ]
  ]

  only_one :
      (k id : ℕ) (t : List PaymentRow)
      → owners reference t ≡ id ∷ []
      → reference_at k t ≡ some reference
      → id ≡ k
  unfolding owners lookup
  only_one k id [] h e = absurd (ground arith)
  only_one k id ((j, p) ∷ t) h e = elim (Bool-cases (has_it p)) [
    | inl its ↦ elim (Bool-cases (j == k)) [
      | inl same ↦ ground (arith, ==→eq j k same)
      | inr apart ↦ absurd (nobody k t (ground arith) (rw apart at e))
    ]
    | inr other ↦ elim (Bool-cases (j == k)) [
      | inl same ↦ absurd (ground (arith, has_it_by p (rw same at e)))
      | inr apart ↦ only_one k id t (rw other at h) (rw apart at e)
    ]
  ]

  -- Whoever has the reference is the payment that was found.
  abbrev pub Owned : Option ℕ → Db → Type 0
  Owned found db = (k : ℕ) → reference_at k db.payments ≡ some reference → found ≡ some k

  only_owner-Owned :
      (found : List ℕ) (db : Db)
      → owners reference db.payments ≡ found
      → Ends (λ r t. (t ≡ db) × Owned r db) AnyError (only_owner found db)
  only_owner-Owned [] db h = (refl, λ k e. absurd (nobody k db.payments h e))
  only_owner-Owned (id ∷ []) db h = (refl, λ k e. ap some (only_one k id db.payments h e))
  only_owner-Owned (id ∷ other ∷ rest) db h = tt

  pub find_by_reference-Owned :
      (db : Db) → Ends (λ r t. (t ≡ db) × Owned r db) AnyError (find_by_reference reference db)
  unfolding find_by_reference
  find_by_reference-Owned db = only_owner-Owned (owners reference db.payments) db refl
