-- ===== src/Payments/Keys.antt =====
-- Refunds looked up by their request's key.
use mathlib.Core.Path.{subst}
use drip_marketplace.Prelude.{
  ℕ, ◌≡◌, refl, inl, inr, true, false, none, some, List, [], ◌∷◌, ◌++◌, arith, ◌==◌, Bool-cases,
  All,
}
use drip_marketplace.Db.{HasDistinctKeys, Text, modify}
use drip_marketplace.Payments.{RefundRow, has_key, find_refund, with_return}

find_refund-All :
    (P : RefundRow → Type 0) (payment_id : ℕ) (key : Text) (row : RefundRow) (rows : List RefundRow)
    → All P rows
    → find_refund payment_id key rows ≡ some row
    → P row
unfolding find_refund
find_refund-All P payment_id key row [] h e = absurd (ground arith)
find_refund-All P payment_id key row (other ∷ rows) h e =
    elim (Bool-cases (has_key payment_id key other.1)) [
      | inl same ↦ let eq : other ≡ row = ground (arith, rw same at e) in subst P eq h.0
      | inr apart ↦ find_refund-All P payment_id key row rows h.1 (rw apart at e)
    ]

-- Linking a refund to a return leaves it to be found by its key.
pub find_refund-modify :
    (payment_id : ℕ) (key : Text) (id : ℕ) (row : RefundRow) (rows : List RefundRow)
    → HasDistinctKeys rows
    → find_refund payment_id key rows ≡ some row
    → find_refund payment_id key (modify row.0 (with_return id) rows)
      ≡ some (row.0, with_return id row.1)
unfolding find_refund modify
find_refund-modify payment_id key id row [] d e = absurd (ground arith)
find_refund-modify payment_id key id row (other ∷ rows) d e =
    elim (Bool-cases (has_key payment_id key other.1)) [
      | inl same ↦
          let eq : other ≡ row = ground (arith, rw same at e) in
          let here : (other.0 == other.0) ≡ true = ground arith in
          subst
            (λ r.
              find_refund payment_id key (modify r.0 (with_return id) (other ∷ rows))
              ≡ some (r.0, with_return id r.1))
            eq (rw (here, same) refl)
      | inr apart ↦
          let later : find_refund payment_id key rows ≡ some row = rw apart at e in
          let distinct : (other.0 == row.0) ≡ false =
            find_refund-All (λ r. (other.0 == r.0) ≡ false) payment_id key row rows d.0 later in
          rw (distinct, apart) (find_refund-modify payment_id key id row rows d.1 later)
    ]

pub find_refund-append :
    (payment_id : ℕ) (key : Text) (row : RefundRow) (rows : List RefundRow)
    → find_refund payment_id key rows ≡ none
    → has_key payment_id key row.1 ≡ true
    → find_refund payment_id key (rows ++ row ∷ []) ≡ some row
unfolding find_refund
find_refund-append payment_id key row [] e h = rw h refl
find_refund-append payment_id key row (other ∷ rows) e h =
    elim (Bool-cases (has_key payment_id key other.1)) [
      | inl same ↦ absurd (ground arith)
      | inr apart ↦ rw apart (find_refund-append payment_id key row rows (rw apart at e) h)
    ]
