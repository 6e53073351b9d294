-- ===== src/Db/Table.antt =====
-- A database table as the list of its rows by primary (or unique) key, and the statements that the
-- repositories issue against one row: SELECT, INSERT, and UPDATE ... WHERE key = k.
use mathlib.Core.Path.{subst}
use drip_marketplace.Prelude.{
  ℕ, ◌+◌, ◌≡◌, refl, ap, inl, inr, Option, none, some, List, [], ◌∷◌, arith, ◌==◌, if◌then◌else◌,
  Bool-cases, Option-cases, All, select, Bool,
}

abbrev pub Table {ℓ} : Type ℓ → Type ℓ
Table V = List (ℕ × V)

module _ {ℓ} {V : Type ℓ} where
  unfoldable pub lookup : ℕ → Table V → Option V
  lookup k [] = none
  lookup k ((j, v) ∷ t) = if j == k then some v else lookup k t

  -- INSERT at the end; a row that has the key already is replaced.
  unfoldable pub insert : ℕ → V → Table V → Table V
  insert k v [] = (k, v) ∷ []
  insert k v ((j, w) ∷ t) = if j == k then (k, v) ∷ t else (j, w) ∷ insert k v t

  -- UPDATE of the row with the key, if there is one.
  unfoldable pub modify : ℕ → (V → V) → Table V → Table V
  modify k f [] = []
  modify k f ((j, w) ∷ t) = if j == k then (j, f w) ∷ t else (j, w) ∷ modify k f t

  -- `sum(f(row))` over the whole table.
  unfoldable pub total : (V → ℕ) → Table V → ℕ
  total f [] = 0
  total f ((_, v) ∷ t) = f v + total f t

  pub lookup-insert :
      (k j : ℕ) (v : V) (t : Table V)
      → lookup j (insert k v t) ≡ (if k == j then some v else lookup j t)
  unfolding lookup insert
  lookup-insert k j v [] = refl
  lookup-insert k j v ((i, w) ∷ t) = ground (arith, lookup-insert k j v t)

  abbrev pub on_row : (V → V) → Option V → Option V
  on_row f none = none
  on_row f (some v) = some (f v)

  pub lookup-modify :
      (k j : ℕ) (f : V → V) (t : Table V)
      → lookup j (modify k f t) ≡ (if k == j then on_row f (lookup j t) else lookup j t)
  unfolding lookup modify
  lookup-modify k j f [] = ground arith
  lookup-modify k j f ((i, w) ∷ t) = ground (arith, lookup-modify k j f t)

  pub lookup-insert_self : (k : ℕ) (v : V) (t : Table V) → lookup k (insert k v t) ≡ some v
  lookup-insert_self k v t = ground (arith, lookup-insert k k v t)

  pub lookup-modify_self :
      (k : ℕ) (f : V → V) (old : V) (t : Table V)
      → lookup k t ≡ some old
      → lookup k (modify k f t) ≡ some (f old)
  lookup-modify_self k f old t found = ground (arith, lookup-modify k k f t)

  pub total-insert :
      (g : V → ℕ) (k : ℕ) (v old : V) (t : Table V)
      → lookup k t ≡ some old
      → total g (insert k v t) + g old ≡ total g t + g v
  unfolding lookup insert total
  total-insert g k v old [] e = ground arith
  total-insert g k v old ((i, w) ∷ t) e = ground (arith, total-insert g k v old t)

  pub total-modify :
      (g : V → ℕ) (k : ℕ) (f : V → V) (old : V) (t : Table V)
      → lookup k t ≡ some old
      → total g (modify k f t) + g old ≡ total g t + g (f old)
  unfolding lookup modify total
  total-modify g k f old [] e = ground arith
  total-modify g k f old ((i, w) ∷ t) e = ground (arith, total-modify g k f old t)

  -- Two UPDATEs of one row, of which the second undoes the first.
  pub modify_cancel :
      (k : ℕ) (f g : V → V) (old : V) (t : Table V)
      → lookup k t ≡ some old
      → g (f old) ≡ old
      → modify k g (modify k f t) ≡ t
  unfolding lookup modify
  modify_cancel k f g old [] e back = refl
  modify_cancel k f g old ((i, w) ∷ t) e back = elim (Bool-cases (i == k)) [
    | inl same ↦
        let w-eq : w ≡ old = ground arith in
        let undone : g (f w) ≡ w = rw w-eq back in
        rw (same, if◌then◌else◌, same) (ap (λ x. (i, x) ∷ t) undone)
    | inr other ↦
        let e' : lookup k t ≡ some old = ground arith in
        rw (other, if◌then◌else◌, other) (ap (λ r. (i, w) ∷ r) (modify_cancel k f g old t e' back))
  ]

  -- An UPDATE that leaves a column alone leaves its sum alone.
  pub total-modify_same :
      (g : V → ℕ) (k : ℕ) (f : V → V) (t : Table V)
      → ((v : V) → g (f v) ≡ g v)
      → total g (modify k f t) ≡ total g t
  unfolding modify total
  total-modify_same g k f [] h = refl
  total-modify_same g k f ((i, w) ∷ t) h = ground (arith, h w, total-modify_same g k f t h)

  pub modify-missing : (k : ℕ) (f : V → V) (t : Table V) → lookup k t ≡ none → modify k f t ≡ t
  unfolding lookup modify
  modify-missing k f [] e = refl
  modify-missing k f ((i, w) ∷ t) e = ground (arith, modify-missing k f t)

-- Every row that a lookup finds.
abbrev pub Holds {ℓ κ} : {V : Type ℓ} → (V → Type κ) → Table V → Type (ℓ ⊔ κ)
Holds {V} P t = (k : ℕ) (v : V) → lookup k t ≡ some v → P v

module _ {ℓ κ} {V : Type ℓ} (P : V → Type κ) where
  pub Holds-insert : (k : ℕ) (v : V) (t : Table V) → P v → Holds P t → Holds P (insert k v t)
  Holds-insert k v t p h j w e = elim (Bool-cases (k == j)) [
    | inl same ↦ let q : v ≡ w = ground (arith, lookup-insert k j v t) in subst P q p
    | inr other ↦ h j w (rw (lookup-insert, other) at e)
  ]

  pub Holds-modify :
      (k : ℕ) (f : V → V) (t : Table V)
      → ((v : V) → lookup k t ≡ some v → P v → P (f v))
      → Holds P t
      → Holds P (modify k f t)
  Holds-modify k f t p h j w e = elim (Bool-cases (k == j)) [
    | inl same ↦ elim (Option-cases (lookup k t)) [
      | inl missing ↦ absurd (ground (arith, lookup-modify k j f t))
      | inr (u, found) ↦
          let q : f u ≡ w = ground (arith, lookup-modify k j f t) in
          subst P q (p u found (h k u found))
    ]
    | inr other ↦ h j w (rw (lookup-modify, other) at e)
  ]

-- Every row of the table.
abbrev pub Rows {ℓ κ} : {V : Type ℓ} → (V → Type κ) → Table V → Type κ
Rows P t = All (λ row. P row.1) t

module _ {ℓ κ} {V : Type ℓ} (P : V → Type κ) where
  pub Rows-insert : (k : ℕ) (v : V) (t : Table V) → P v → Rows P t → Rows P (insert k v t)
  unfolding insert
  Rows-insert k v [] p h = (p, tt)
  Rows-insert k v ((j, w) ∷ t) p h = elim (Bool-cases (j == k)) [
    | inl same ↦ rw same (p, h.1)
    | inr other ↦ rw other (h.0, Rows-insert k v t p h.1)
  ]

  pub Rows-select : (q : ℕ × V → Bool) (t : Table V) → Rows P t → Rows P (select q t)
  Rows-select q [] h = tt
  Rows-select q (row ∷ t) h = elim (Bool-cases (q row)) [
    | inl chosen ↦ rw chosen (h.0, Rows-select q t h.1)
    | inr passed ↦ rw passed (Rows-select q t h.1)
  ]
