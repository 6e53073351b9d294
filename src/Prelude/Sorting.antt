-- ===== src/Prelude/Sorting.antt =====
-- Python's `sorted` with a key: a stable insertion into a sorted list; the test tells which of two comes first.
use Prim.Native.Nat.{ℕ, ◌+◌}
use mathlib.Core.Path.{◌≡◌, refl}
use mathlib.Core.Logic.{inl, inr}
use mathlib.Core.Bool.{Bool}
use mathlib.Core.List.{List, [], ◌∷◌}
use native.Mathlib.Omega.{arith}
use drip_marketplace.Prelude.Tests.{if◌then◌else◌, Bool-cases}
use drip_marketplace.Prelude.Lists.{sum_of, All}

module _ {ℓ} {A : Type ℓ} (first : A → A → Bool) where
  unfoldable pub put_by : A → List A → List A
  put_by x [] = x ∷ []
  put_by x (y ∷ ys) = if first x y then x ∷ y ∷ ys else y ∷ put_by x ys

  unfoldable pub sort_by : List A → List A
  sort_by [] = []
  sort_by (x ∷ xs) = put_by x (sort_by xs)

  sum_of-put_by : (f : A → ℕ) (x : A) (ys : List A) → sum_of f (put_by x ys) ≡ f x + sum_of f ys
  unfolding put_by
  sum_of-put_by f x [] = refl
  sum_of-put_by f x (y ∷ ys) = elim (Bool-cases (first x y)) [
    | inl before ↦ rw before refl
    | inr after ↦ rw after (omega (arith, sum_of-put_by f x ys))
  ]

  -- A sum does not depend on the order.
  pub sum_of-sort_by : (f : A → ℕ) (xs : List A) → sum_of f (sort_by xs) ≡ sum_of f xs
  unfolding sort_by
  sum_of-sort_by f [] = refl
  sum_of-sort_by f (x ∷ xs) = omega (arith, sum_of-put_by f x (sort_by xs), sum_of-sort_by f xs)

  module _ {κ} (P : A → Type κ) where
    All-put_by : (x : A) (ys : List A) → All P (put_by x ys) → P x × All P ys
    unfolding put_by
    All-put_by x [] h = h
    All-put_by x (y ∷ ys) h = elim (Bool-cases (first x y)) [
      | inl before ↦ rw before at h
      | inr after ↦
          let below : P y × All P (put_by x ys) = rw after at h in
          let (here, rest) = All-put_by x ys below.1 in (here, (below.0, rest))
    ]

    -- What holds of the sorted list holds of the list.
    pub All-sort_by : (xs : List A) → All P (sort_by xs) → All P xs
    unfolding sort_by
    All-sort_by [] h = tt
    All-sort_by (x ∷ xs) h =
        let (here, rest) = All-put_by x (sort_by xs) h in (here, All-sort_by xs rest)
