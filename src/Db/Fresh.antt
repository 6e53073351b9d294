-- ===== src/Db/Fresh.antt =====
-- Keys that are not in use yet: a table whose keys all lie below the next identifier.
use mathlib.Core.Path.{subst}
use drip_marketplace.Prelude.{
  ℕ, ◌+◌, ◌≤◌, ◌<◌, ◌≡◌, refl, inl, inr, none, false, [], ◌∷◌, ◌++◌, arith, ◌==◌, ==→eq, Bool-cases,
  All,
}
use drip_marketplace.Db.Table.{Table, lookup, insert, modify, total}

module _ {ℓ} {V : Type ℓ} where
  abbrev pub Below : ℕ → Table V → Type 0
  Below n t = All (λ row. row.0 < n) t

  pub Below-lookup : (n : ℕ) (t : Table V) → Below n t → lookup n t ≡ none
  unfolding lookup
  Below-lookup n [] h = refl
  Below-lookup n ((j, v) ∷ t) h = ground (arith, Below-lookup n t h.1)

  pub Below-insert : (n : ℕ) (v : V) (t : Table V) → Below n t → Below (n + 1) (insert n v t)
  unfolding insert
  Below-insert n v [] h = (omega arith, tt)
  Below-insert n v ((j, w) ∷ t) h = elim (Bool-cases (j == n)) [
    | inl same ↦ absurd (ground arith)
    | inr other ↦ rw other (omega arith, Below-insert n v t h.1)
  ]

  pub Below-modify : (n k : ℕ) (f : V → V) (t : Table V) → Below n t → Below n (modify k f t)
  unfolding modify
  Below-modify n k f [] h = tt
  Below-modify n k f ((j, w) ∷ t) h = elim (Bool-cases (j == k)) [
    | inl same ↦ rw same h
    | inr other ↦ rw other (h.0, Below-modify n k f t h.1)
  ]

  pub total-insert_fresh :
      (g : V → ℕ) (n : ℕ) (v : V) (t : Table V)
      → Below n t
      → total g (insert n v t) ≡ total g t + g v
  unfolding total insert
  total-insert_fresh g n v [] h = omega arith
  total-insert_fresh g n v ((j, w) ∷ t) h = ground (arith, total-insert_fresh g n v t h.1)

  -- A fresh row goes to the end.
  pub insert-append : (n : ℕ) (v : V) (t : Table V) → Below n t → insert n v t ≡ t ++ (n, v) ∷ []
  unfolding insert
  insert-append n v [] h = refl
  insert-append n v (row ∷ t) h = ground (arith, insert-append n v t h.1)

  pub Below-suc : (n : ℕ) (t : Table V) → Below n t → Below (n + 1) t
  Below-suc n [] h = tt
  Below-suc n (row ∷ t) h = (omega arith, Below-suc n t h.1)

  -- No two rows have the same key.
  abbrev pub HasDistinctKeys : Table V → Type 0
  HasDistinctKeys [] = Unit
  HasDistinctKeys (row ∷ t) = All (λ r. (row.0 == r.0) ≡ false) t × HasDistinctKeys t

  others-insert :
      (j n : ℕ) (v : V) (t : Table V)
      → (j == n) ≡ false
      → All (λ r. (j == r.0) ≡ false) t
      → All (λ r. (j == r.0) ≡ false) (insert n v t)
  unfolding insert
  others-insert j n v [] e h = (e, tt)
  others-insert j n v ((i, w) ∷ t) e h = elim (Bool-cases (i == n)) [
    | inl same ↦ rw same (e, h.1)
    | inr other ↦ rw other (h.0, others-insert j n v t e h.1)
  ]

  pub HasDistinctKeys-insert :
      (n : ℕ) (v : V) (t : Table V) → Below n t → HasDistinctKeys t → HasDistinctKeys (insert n v t)
  unfolding insert
  HasDistinctKeys-insert n v [] b d = (tt, tt)
  HasDistinctKeys-insert n v ((i, w) ∷ t) b d =
      let apart : (i == n) ≡ false = ground arith in
      rw apart (others-insert i n v t apart d.0, HasDistinctKeys-insert n v t b.1 d.1)

  -- Storing a row anew, or one more.
  pub HasDistinctKeys-store :
      (n : ℕ) (v : V) (t : Table V) → HasDistinctKeys t → HasDistinctKeys (insert n v t)
  unfolding insert
  HasDistinctKeys-store n v [] d = (tt, tt)
  HasDistinctKeys-store n v ((i, w) ∷ t) d = elim (Bool-cases (i == n)) [
    | inl same ↦
        rw same
          (subst (λ j. All (λ r. (j == r.0) ≡ false) t × HasDistinctKeys t) (==→eq i n same) d)
    | inr other ↦ rw other (others-insert i n v t other d.0, HasDistinctKeys-store n v t d.1)
  ]

  others-modify :
      (j k : ℕ) (f : V → V) (t : Table V)
      → All (λ r. (j == r.0) ≡ false) t
      → All (λ r. (j == r.0) ≡ false) (modify k f t)
  unfolding modify
  others-modify j k f [] h = tt
  others-modify j k f ((i, w) ∷ t) h = elim (Bool-cases (i == k)) [
    | inl same ↦ rw same h
    | inr other ↦ rw other (h.0, others-modify j k f t h.1)
  ]

  pub HasDistinctKeys-modify :
      (k : ℕ) (f : V → V) (t : Table V) → HasDistinctKeys t → HasDistinctKeys (modify k f t)
  unfolding modify
  HasDistinctKeys-modify k f [] d = tt
  HasDistinctKeys-modify k f ((i, w) ∷ t) d = elim (Bool-cases (i == k)) [
    | inl same ↦ rw same d
    | inr other ↦ rw other (others-modify i k f t d.0, HasDistinctKeys-modify k f t d.1)
  ]

  pub Below-le : (m n : ℕ) (t : Table V) → m ≤ n → Below m t → Below n t
  Below-le m n [] le h = tt
  Below-le m n (row ∷ t) le h = (omega arith, Below-le m n t le h.1)
