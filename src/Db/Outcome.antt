-- ===== src/Db/Outcome.antt =====
-- Statements about how an operation ends, and their rules for chains of operations.
use drip_marketplace.Prelude.{◌≡◌, refl, inl, inr, Bool, true, false, Option, none, some}
use drip_marketplace.Db.Monad.{
  Result, ok, err, Error, Action, ◌>>=◌, ◌>>◌, Result-cases, after, raise_if, or_raise,
}

-- The result of an operation: P holds of what it returns and of the new database, E of what it raises.
abbrev pub Ends : {S A : Type 0} → (A → S → Type 0) → (Error → Type 0) → Result S A → Type 0
Ends P E (ok a s) = P a s
Ends P E (err e) = E e

abbrev pub Never : Error → Type 0
Never _ = ⊥

module _ {S A B : Type 0} (m : Action S A) (Q : A → S → Type 0) (P : B → S → Type 0)
    (E : Error → Type 0) (s : S) where
  -- A chain: what holds after the first operation leads to what holds at the end.
  pub Ends-bind :
      (f : A → Action S B)
      → Ends Q E (m s)
      → ((a : A) (t : S) → Q a t → Ends P E (f a t))
      → Ends P E ((m >>= f) s)
  Ends-bind f h k = elim (Result-cases (m s)) [
    | inl (a, t, e) ↦ rw (e, ◌>>=◌) (k a t (rw e at h))
    | inr (x, e) ↦ rw (e, ◌>>=◌) (rw e at h)
  ]

  pub Ends-then :
      (n : Action S B)
      → Ends Q E (m s)
      → ((a : A) (t : S) → Q a t → Ends P E (n t))
      → Ends P E ((m >> n) s)
  Ends-then n h k = elim (Result-cases (m s)) [
    | inl (a, t, e) ↦ rw (e, ◌>>◌) (k a t (rw e at h))
    | inr (x, e) ↦ rw (e, ◌>>◌) (rw e at h)
  ]

-- A weaker statement about the same result.
pub Ends-weaken :
    {S A : Type 0} (Q P : A → S → Type 0) (E F : Error → Type 0) (r : Result S A)
    → Ends Q E r
    → ((a : A) (s : S) → Q a s → P a s)
    → ((e : Error) → E e → F e)
    → Ends P F r
Ends-weaken Q P E F (ok a s) h p f = p a s h
Ends-weaken Q P E F (err e) h p f = f e h

-- What never fails meets any statement about failures.
pub Ends-Never :
    {S A : Type 0} (P : A → S → Type 0) (E : Error → Type 0) (r : Result S A)
    → Ends P Never r
    → Ends P E r
Ends-Never P E (ok a s) h = h
Ends-Never P E (err e) h = absurd h

module _ {S B : Type 0} (P : B → S → Type 0) (E : Error → Type 0) (s : S) where
  -- A guard either raises, or lets what follows know that its test failed.
  pub Ends-guard :
      (test : Bool) (e : Error) (k : Action S B)
      → (test ≡ true → E e)
      → (test ≡ false → Ends P E (k s))
      → Ends P E ((raise_if test e >> k) s)
  Ends-guard true e k h p = h refl
  Ends-guard false e k h p = p refl

  pub Ends-require :
      {A : Type 0} (o : Option A) (e : Error) (f : A → Action S B)
      → (o ≡ none → E e)
      → ((a : A) → o ≡ some a → Ends P E (f a s))
      → Ends P E ((or_raise o e >>= f) s)
  Ends-require none e f h p = h refl
  Ends-require (some a) e f h p = p a refl

-- What holds of an operation that goes through, and of doing nothing, holds of its transaction.
pub Ends-after :
    {S A : Type 0} (R : S → S → Type 0) (E : Error → Type 0) (m : Action S A) (s : S)
    → R s s
    → Ends (λ _ t. R s t) E (m s)
    → R s (after m s)
Ends-after R E m s same h = elim (Result-cases (m s)) [
  | inl (a, t, e) ↦ rw (e, after) (rw e at h)
  | inr (x, e) ↦ rw (e, after) same
]
