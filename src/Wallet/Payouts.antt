-- ===== src/Wallet/Payouts.antt =====
-- The life of a payout: its status follows the review, its terms stay, and the seller's money is either
-- withdrawable or in one payout that is not rejected.
use mathlib.Core.Path.{subst}
use drip_marketplace.Prelude.{
  ==→eq, ℕ, List, ◌+◌, ◌≡◌, refl, ap, ◌⊎◌, inl, inr, some, arith, ◌==◌, is_some, Bool-cases,
}
use drip_marketplace.Db.{
  Db, Payout, PayoutStatus, lookup, on_row, modify, total, Holds, Holds-modify, lookup-modify,
  Below, Below-modify,
}
use drip_marketplace.Commission.Release.Conserves.{available_total}
use drip_marketplace.Wallet.Decision.{is_payout_completed}

-- The transfer's reference and time are there when the payout is completed, and only then.
pub record IsValidPayout (p : Payout) : Type 0 where
  pub referenced : is_some p.transfer_reference ≡ is_payout_completed p.status
  pub timed : is_some p.completed_at ≡ is_payout_completed p.status

-- The steps of the review.
pub data Step : PayoutStatus → PayoutStatus → Type 0 where
  approve : Step PayoutStatus.requested PayoutStatus.approved
  reject_request : Step PayoutStatus.requested PayoutStatus.rejected
  reject_approved : Step PayoutStatus.approved PayoutStatus.rejected
  complete_approved : Step PayoutStatus.approved PayoutStatus.completed
  complete_processing : Step PayoutStatus.processing PayoutStatus.completed

-- What a decision may do to a payout: nothing, or one step that keeps its seller, amount and destination.
pub record Follows (p q : Payout) : Type 0 where
  pub seller_id : q.seller_id ≡ p.seller_id
  pub amount : q.amount ≡ p.amount
  pub method : q.payment_method ≡ p.payment_method
  pub detail : q.payment_detail ≡ p.payment_detail
  pub step : (q ≡ p) ⊎ Step p.status q.status

pub Follows-refl : (p : Payout) → Follows p p
Follows-refl p = record {
  seller_id = refl;
  amount = refl;
  method = refl;
  detail = refl;
  step = inl refl;
}

abbrev pub Follow : List (ℕ × Payout) → List (ℕ × Payout) → Type 0
Follow t u =
    (id : ℕ) (p : Payout)
    → lookup id t ≡ some p
    → (q : Payout) × (lookup id u ≡ some q) × Follows p q

-- The money of a payout, unless it went back to the seller.
abbrev pub outstanding : Payout → ℕ
outstanding p = elim p.status [ PayoutStatus.rejected ↦ 0 | _ ↦ p.amount ]

-- The payouts' constraints.
pub record PayoutBooks (db : Db) : Type 0 where
  pub payouts_valid : Holds IsValidPayout db.payouts
  pub fresh : Below db.next_id db.payouts

-- What an operation on payouts does.
pub record Reviewed (db db' : Db) : Type 0 where
  pub books : PayoutBooks db'
  pub follow : Follow db.payouts db'.payouts
  pub money :
      available_total db' + total outstanding db'.payouts
      ≡ available_total db + total outstanding db.payouts

pub Reviewed-refl : (db : Db) → PayoutBooks db → Reviewed db db
Reviewed-refl db b = record {
  books = b;
  follow = λ id p found. (p, found, Follows-refl p);
  money = refl;
}

-- One payout changes by a step.
module _ (id : ℕ) (f : Payout → Payout) (p : Payout) (db : Db)
    (found : lookup id db.payouts ≡ some p) where
  the_same : (q : Payout) → lookup id db.payouts ≡ some q → p ≡ q
  the_same q e = ground arith

  pub modify-Follow : Follows p (f p) → Follow db.payouts (modify id f db.payouts)
  modify-Follow h j q e = elim (Bool-cases (id == j)) [
    | inl same ↦
        let here : lookup id db.payouts ≡ some q = rw (==→eq id j same) e in
        let pq : p ≡ q = the_same q here in
        let there : lookup j db.payouts ≡ some p = rw (← ==→eq id j same) found in
        let made : on_row f (lookup j db.payouts) ≡ some (f p) = ap (on_row f) there in
        (f p, rw (lookup-modify, same) made, subst (λ r. Follows r (f p)) pq h)
    | inr other ↦ (q, rw (lookup-modify, other) e, Follows-refl q)
  ]

  pub modify-PayoutBooks :
      IsValidPayout (f p)
      → PayoutBooks db
      → PayoutBooks (record db { payouts = modify id f db.payouts })
  modify-PayoutBooks v b = record {
    payouts_valid =
        Holds-modify IsValidPayout id f db.payouts
          (λ q e _. subst (λ r. IsValidPayout (f r)) (the_same q e) v) b.payouts_valid;
    fresh = Below-modify db.next_id id f db.payouts b.fresh;
  }
