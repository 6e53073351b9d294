-- ===== src/Returns/Claims.antt =====
-- How much of an order item its returns claim, and what the validation of quantities lets through.
use mathlib.Core.Path.{subst}
use drip_marketplace.Prelude.{
  ℕ, ◌+◌, ◌≤◌, ◌≡◌, refl, ap, inl, inr, true, false, Option, none, some, List, [], ◌∷◌, arith,
  sum_of, sort_by, All, All-sort_by, ltb, ◌==◌, if◌then◌else◌, Bool-cases,
}
use drip_marketplace.Db.{
  Db, OrderItem, Return, ReturnItem, ItemId, Ends, Ends-guard, Ends-require, Ends-weaken, lookup,
  insert, modify, Below, HasDistinctKeys,
}
use drip_marketplace.Commission.Refund.Allocated.{AnyError}
use drip_marketplace.Returns.{ReturnRow}
use drip_marketplace.Returns.Request.{
  same_item, find_item, seller_item, if_sold_in, quantity_for, claim_of, claimed, validate_items,
  by_item, validate_return_quantities, has_repeated_item,
}

abbrev pub bought : Option OrderItem → ℕ
bought none = 0
bought (some item) = item.quantity

-- The quantity of an order item, or nothing if there is none.
abbrev pub purchased : ItemId → Db → ℕ
purchased id db = bought (find_item id db)

module _ (id : ItemId) where
  pub claimed-insert :
      (n : ℕ) (v : Return) (t : List ReturnRow)
      → Below n t
      → claimed id none (insert n v t) ≡ claimed id none t + claim_of id v
  unfolding claimed insert
  claimed-insert n v [] b = ground arith
  claimed-insert n v ((i, w) ∷ t) b =
      let apart : (i == n) ≡ false = ground arith in
      rw apart (omega (arith, claimed-insert n v t b.1))

  pub claimed-modify :
      (k : ℕ) (f : Return → Return) (p : Return) (t : List ReturnRow)
      → lookup k t ≡ some p
      → claimed id none (modify k f t) + claim_of id p ≡ claimed id none t + claim_of id (f p)
  unfolding claimed modify lookup
  claimed-modify k f p [] e = absurd (ground arith)
  claimed-modify k f p ((i, w) ∷ t) e = elim (Bool-cases (i == k)) [
    | inl same ↦ let eq : w ≡ p = ground (arith, rw same at e) in rw same (rw eq (omega arith))
    | inr other ↦ rw other (omega (arith, claimed-modify k f p t (rw other at e)))
  ]

  claimed_others :
      (k : ℕ) (t : List ReturnRow)
      → All (λ r. (k == r.0) ≡ false) t
      → claimed id (some k) t ≡ claimed id none t
  unfolding claimed
  claimed_others k [] h = refl
  claimed_others k ((i, w) ∷ t) h =
      let apart : (i == k) ≡ false = ground arith in
      rw apart (omega (arith, claimed_others k t h.1))

  -- The claims of all returns are those of the others and its own.
  pub claimed_split :
      (k : ℕ) (p : Return) (t : List ReturnRow)
      → HasDistinctKeys t
      → lookup k t ≡ some p
      → claimed id none t ≡ claimed id (some k) t + claim_of id p
  unfolding claimed lookup
  claimed_split k p [] d e = absurd (ground arith)
  claimed_split k p ((i, w) ∷ t) d e = elim (Bool-cases (i == k)) [
    | inl same ↦
        let eq : w ≡ p = ground (arith, rw same at e) in
        let i-eq : i ≡ k = ground arith in
        let rest : claimed id (some k) t ≡ claimed id none t =
          subst (λ j. claimed id (some j) t ≡ claimed id none t) i-eq (claimed_others i t d.0) in
        rw same (rw eq (omega (arith, rest)))
    | inr other ↦ rw other (omega (arith, claimed_split k p t d.1 (rw other at e)))
  ]

-- What a validated item satisfies.
abbrev pub FitsItem : Option ℕ → Db → ReturnItem → Type 0
FitsItem exclude db i = i.quantity + claimed i.item exclude db.returns ≤ purchased i.item db

seller_item_found :
    (order_id seller_id : ℕ) (id : ItemId) (found : Option OrderItem) (item : OrderItem)
    → if_sold_in order_id seller_id id found ≡ some item
    → bought found ≡ item.quantity
seller_item_found order_id seller_id id none item e = absurd (ground arith)
seller_item_found order_id seller_id id (some other) item e =
    let eq : other ≡ item = ground (arith, e) in ap (λ (x : OrderItem). x.quantity) eq

validate_items-Fits :
    (order_id seller_id : ℕ) (exclude : Option ℕ) (items : List ReturnItem) (db : Db)
    → Ends
        (λ _ t. (t ≡ db) × All (FitsItem exclude db) items)
        AnyError
        (validate_items order_id seller_id exclude items db)
unfolding validate_items
validate_items-Fits order_id seller_id exclude [] db = (refl, tt)
validate_items-Fits order_id seller_id exclude (i ∷ items) db =
    Ends-require P AnyError db (seller_item order_id seller_id i.item db) _ _ (λ _. tt)
      (λ item found.
        Ends-guard P AnyError db
          (ltb item.quantity (i.quantity + claimed i.item exclude db.returns)) _ _ (λ _. tt)
          (λ fits.
            let whole : bought (find_item i.item db) ≡ item.quantity =
              seller_item_found order_id seller_id i.item (find_item i.item db) item found in
            Ends-weaken (λ _ t. (t ≡ db) × All (FitsItem exclude db) items) P AnyError AnyError
              (validate_items order_id seller_id exclude items db)
              (validate_items-Fits order_id seller_id exclude items db)
              (λ _ t r. (r.0, (ground (arith, whole), r.1))) (λ _ _. tt)))
  where
    P : Unit {0} → Db → Type 0
    P _ t = (t ≡ db) × All (FitsItem exclude db) (i ∷ items)

-- What passes the validation leaves the database as it was.
pub validate_return_quantities-Fits :
    (order_id seller_id : ℕ) (exclude : Option ℕ) (items : List ReturnItem) (db : Db)
    → Ends
        (λ _ t. (t ≡ db) × All (FitsItem exclude db) items)
        AnyError
        (validate_return_quantities order_id seller_id exclude items db)
unfolding validate_return_quantities
validate_return_quantities-Fits order_id seller_id exclude items db =
    Ends-weaken (λ _ t. (t ≡ db) × All (FitsItem exclude db) (sort_by by_item items))
      (λ _ t. (t ≡ db) × All (FitsItem exclude db) items) AnyError AnyError
      (validate_items order_id seller_id exclude (sort_by by_item items) db)
      (validate_items-Fits order_id seller_id exclude (sort_by by_item items) db)
      (λ _ t r. (r.0, All-sort_by by_item (FitsItem exclude db) items r.1)) (λ _ _. tt)

same_item_eq : (a b : ItemId) → same_item a b ≡ true → a ≡ b
same_item_eq a b h = ground arith

-- The count that tells a repetition.
abbrev times : ItemId → List ReturnItem → ℕ
times id items = sum_of (λ (j : ReturnItem). if same_item j.item id then 1 else 0) items

quantity_for_absent :
    (id : ItemId) (items : List ReturnItem) → times id items ≡ 0 → quantity_for id items ≡ 0
quantity_for_absent id [] h = refl
quantity_for_absent id (i ∷ items) h = elim (Bool-cases (same_item i.item id)) [
  | inl same ↦ absurd (ground arith)
  | inr other ↦
      let rest : times id items ≡ 0 = ground arith in
      rw other (omega (arith, quantity_for_absent id items rest))
]

-- Items that are all different and fit one by one fit together.
pub fits_together :
    (exclude : Option ℕ) (id : ItemId) (items : List ReturnItem) (db : Db)
    → has_repeated_item items ≡ false
    → All (FitsItem exclude db) items
    → claimed id exclude db.returns ≤ purchased id db
    → quantity_for id items + claimed id exclude db.returns ≤ purchased id db
unfolding has_repeated_item
fits_together exclude id [] db d fits before = omega arith
fits_together exclude id (i ∷ items) db d fits before = elim (Bool-cases (same_item i.item id)) [
  | inl same ↦
      let eq : i.item ≡ id = same_item_eq i.item id same in
      let once : times i.item items ≡ 0 = ground arith in
      let none_left : quantity_for id items ≡ 0 =
        subst (λ j. quantity_for j items ≡ 0) eq (quantity_for_absent i.item items once) in
      let here : i.quantity + claimed id exclude db.returns ≤ purchased id db =
        subst (λ j. i.quantity + claimed j exclude db.returns ≤ purchased j db) eq fits.0 in
      rw same (omega (arith, none_left, here))
  | inr other ↦
      let rest : has_repeated_item items ≡ false = ground arith in
      rw other (omega (arith, fits_together exclude id items db rest fits.1 before))
]
