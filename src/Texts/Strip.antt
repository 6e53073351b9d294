-- ===== src/Texts/Strip.antt =====
-- A stripped text is not stripped any further.
use drip_marketplace.Prelude.{ℕ, ◌≡◌, refl, sym, ◌∙◌, ap, ◌⊎◌, inl, inr, false, [], ◌∷◌, Bool-cases}
use drip_marketplace.Db.{Text}
use drip_marketplace.Texts.{is_space, lstrip, rstrip, strip, cons_unless_blank}

-- The first character, if there is one, is no space.
Starts : Text → Type 0
Starts [] = Unit
Starts (c ∷ _) = is_space c ≡ false

lstrip-Starts : (text : Text) → Starts (lstrip text)
unfolding lstrip Starts
lstrip-Starts [] = tt
lstrip-Starts (c ∷ text) = elim (Bool-cases (is_space c)) [
  | inl space ↦ rw space (lstrip-Starts text)
  | inr other ↦ rw other other
]

lstrip-eq : (text : Text) → Starts text → lstrip text ≡ text
unfolding lstrip Starts
lstrip-eq [] h = refl
lstrip-eq (c ∷ text) h = rw h refl

Text-cases : (text : Text) → (text ≡ []) ⊎ ((c : ℕ) × (rest : Text) × (text ≡ c ∷ rest))
Text-cases [] = inl refl
Text-cases (c ∷ rest) = inr (c, rest, refl)

rstrip-Starts : (text : Text) → Starts text → Starts (rstrip text)
unfolding rstrip Starts
rstrip-Starts [] h = tt
rstrip-Starts (c ∷ text) h = elim (Text-cases (rstrip text)) [
  | inl empty ↦ rw (empty, cons_unless_blank, h) h
  | inr (d, rest, e) ↦ rw (e, cons_unless_blank) h
]

rstrip_stable : (text : Text) → rstrip (rstrip text) ≡ rstrip text
unfolding rstrip
rstrip_stable [] = refl
rstrip_stable (c ∷ text) = elim (Text-cases (rstrip text)) [
  | inl empty ↦ elim (Bool-cases (is_space c)) [
    | inl space ↦ rw (empty, cons_unless_blank, space) refl
    | inr other ↦ rw (empty, cons_unless_blank, other) (rw other refl)
  ]
  | inr (d, rest, e) ↦
      let again : rstrip (d ∷ rest) ≡ d ∷ rest = ap rstrip (sym e) ∙ rstrip_stable text ∙ e in
      rw (e, cons_unless_blank) (ap (cons_unless_blank c) again)
]

pub strip_stable : (text : Text) → strip (strip text) ≡ strip text
unfolding strip
strip_stable text =
    rw (lstrip-eq (rstrip (lstrip text)) (rstrip-Starts (lstrip text) (lstrip-Starts text)))
      (rstrip_stable (lstrip text))
