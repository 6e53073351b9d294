-- ===== src/Payments/Confirm/Restocked.antt =====
-- The units of a confirmed return go back to the stock, each once.
use drip_marketplace.Prelude.{
  ℕ, ◌+◌, ◌≡◌, refl, ap, inl, inr, not, Option, none, some, List, [], ◌∷◌, arith, sum_of, sort_by,
  sum_of-sort_by, ◌==◌, is_some, Bool-cases, Option-cases,
}
use drip_marketplace.Db.{
  Db, Return, ReturnItem, ProductInventory, Ends, Ends-guard, Ends-require, Ends-then, Ends-weaken,
  lookup, modify, total-modify,
}
use drip_marketplace.Checkout.{Entry, add_to, merge_from, merge_items}
use drip_marketplace.Checkout.Allocation.{entry_amount, sum_of-add_to}
use drip_marketplace.Commission.Refund.Allocated.{AnyError}
use drip_marketplace.Orders.Closed.{stock_total}
use drip_marketplace.Returns.Request.{same_item, find_item}
use drip_marketplace.Payments.Confirm.{
  add_returned, gather, prior_refunded, restock_entry, variant_of, restock_entries, split_seller,
  more_stock, add_stock, restock_all, by_variant, paid_back, restock_return, take_back,
}

abbrev pub units : List ReturnItem → ℕ
units items = sum_of (λ (i : ReturnItem). i.quantity) items

units-add_returned :
    (i : ReturnItem) (items : List ReturnItem)
    → units (add_returned i items) ≡ i.quantity + units items
unfolding add_returned
units-add_returned i [] = refl
units-add_returned i (j ∷ items) = elim (Bool-cases (same_item j.item i.item)) [
  | inl same ↦ rw same (omega arith)
  | inr other ↦ rw other (omega (arith, units-add_returned i items))
]

units-gather :
    (items acc result : List ReturnItem)
    → gather items acc ≡ some result
    → units result ≡ units items + units acc
unfolding gather
units-gather [] acc result e = let eq : acc ≡ result = ground arith in rw (← eq) (omega arith)
units-gather (i ∷ items) acc result e = elim (Bool-cases (i.quantity == 0)) [
  | inl none_there ↦ absurd (ground arith)
  | inr more ↦ omega (
    arith,
    units-gather items (add_returned i acc) result (rw more at e),
    units-add_returned i acc,
  )
]

restock_entry-is_some :
    (i : ReturnItem) (variant : Option ℕ) (rest : Option (List Entry)) (entries : List Entry)
    → restock_entry i variant rest ≡ some entries
    → (tail : List Entry) × (rest ≡ some tail)
      × (sum_of entry_amount entries ≡ i.quantity + sum_of entry_amount tail)
restock_entry-is_some i none rest entries e = absurd (ground arith)
restock_entry-is_some i (some v) none entries e = absurd (ground arith)
restock_entry-is_some i (some v) (some tail) entries e =
    let eq : (v, i.quantity) ∷ tail ≡ entries = ground arith in (tail, refl, rw (← eq) refl)

restock_entries-units :
    (payment_id seller_id return_id : ℕ) (items : List ReturnItem) (db : Db) (entries : List Entry)
    → restock_entries payment_id seller_id return_id items db ≡ some entries
    → sum_of entry_amount entries ≡ units items
unfolding restock_entries
restock_entries-units payment_id seller_id return_id [] db entries e =
    let eq : [] ≡ entries = ground arith in rw (← eq) refl
restock_entries-units payment_id seller_id return_id (i ∷ items) db entries e =
    let (tail, more, sums) =
      restock_entry-is_some i
        (variant_of payment_id seller_id i (prior_refunded i.item return_id db.returns)
          (find_item i.item db))
        (restock_entries payment_id seller_id return_id items db) entries e in
    omega (arith, sums, restock_entries-units payment_id seller_id return_id items db tail more)

sum_of-merge_from :
    (acc entries : List Entry)
    → sum_of entry_amount (merge_from acc entries)
      ≡ sum_of entry_amount acc + sum_of entry_amount entries
unfolding merge_from
sum_of-merge_from acc [] = omega arith
sum_of-merge_from acc ((v, q) ∷ entries) =
    omega (arith, sum_of-merge_from (add_to v q acc) entries, sum_of-add_to v q acc)

-- Only the stock changes.
abbrev pub Restocked : ℕ → Db → Db → Type 0
Restocked amount db t =
    (t ≡ record db { inventory = t.inventory }) × (stock_total t ≡ stock_total db + amount)

restock_all-Restocked :
    (entries : List Entry) (db : Db)
    → Ends (λ _ t. Restocked (sum_of entry_amount entries) db t) AnyError (restock_all entries db)
unfolding restock_all
restock_all-Restocked [] db = (refl, omega arith)
restock_all-Restocked (entry ∷ entries) db =
    Ends-guard P AnyError db (not (is_some (lookup entry.0 db.inventory))) _ _ (λ _. tt)
      (λ there. elim (Option-cases (lookup entry.0 db.inventory)) [
        | inl missing ↦ absurd (ground arith)
        | inr (row, found) ↦
            let mid : Db = add_stock entry.0 entry.1 db in
            Ends-weaken (λ _ t. Restocked (sum_of entry_amount entries) mid t) P AnyError AnyError
              (restock_all entries mid) (restock_all-Restocked entries mid)
              (λ _ t r. (
                r.0,
                omega (
                  arith,
                  r.1,
                  total-modify (λ (i : ProductInventory). i.stock) entry.0 (more_stock entry.1) row
                      db.inventory found,
                ),
              ))
              (λ _ _. tt)
      ])
  where
    P : Unit {0} → Db → Type 0
    P _ t = Restocked (sum_of entry_amount (entry ∷ entries)) db t

abbrev pub units_back : Option ℕ → Option Return → ℕ
units_back (some id) (some r) = units r.items
units_back _ _ = 0

abbrev pub returns_back : ℕ → Option ℕ → Option Return → List (ℕ × Return) → List (ℕ × Return)
returns_back now (some id) (some r) rows = modify id (paid_back now) rows
returns_back now _ _ rows = rows

-- The returned units are in the stock and the return is refunded; without a return nothing happens.
pub record TakenBack (now : ℕ) (link : Option ℕ) (returned : Option Return) (db t : Db)
    : Type 0 where
  pub frame : t ≡ record db { inventory = t.inventory; returns = t.returns }
  pub stock : stock_total t ≡ stock_total db + units_back link returned
  pub returns : t.returns ≡ returns_back now link returned db.returns

restock_return-TakenBack :
    (now payment_id id : ℕ) (r : Return) (db : Db)
    → Ends
        (λ _ t. TakenBack now (some id) (some r) db t)
        AnyError
        (restock_return now payment_id id r db)
unfolding restock_return
restock_return-TakenBack now payment_id id r db =
    Ends-require P AnyError db (gather r.items []) _ _ (λ _. tt)
      (λ items gathered.
        Ends-require P AnyError db
          (split_seller payment_id (lookup r.seller_order_id db.seller_orders)) _ _ (λ _. tt)
          (λ seller _.
            Ends-require P AnyError db (restock_entries payment_id seller id items db) _ _ (λ _. tt)
              (λ entries found.
                let sorted = sort_by by_variant (merge_items entries) in
                Ends-then (restock_all sorted) (λ _ t. Restocked (sum_of entry_amount sorted) db t)
                  P AnyError db _ (restock_all-Restocked sorted db)
                  (λ _ t done. record {
                    frame =
                        ap (λ (x : Db). record x { returns = modify id (paid_back now) t.returns })
                          done.0;
                    stock = omega (
                      arith,
                      done.1,
                      sum_of-sort_by by_variant entry_amount (merge_items entries),
                      sum_of-merge_from [] entries,
                      restock_entries-units payment_id seller id items db entries found,
                      units-gather r.items [] items gathered,
                    );
                    returns = ap (λ (x : Db). modify id (paid_back now) x.returns) done.0;
                  }))))
  where
    P : Unit {0} → Db → Type 0
    P _ t = TakenBack now (some id) (some r) db t

pub take_back-TakenBack :
    (now payment_id : ℕ) (link : Option ℕ) (returned : Option Return) (db : Db)
    → Ends
        (λ _ t. TakenBack now link returned db t)
        AnyError
        (take_back now payment_id link returned db)
take_back-TakenBack now payment_id (some id) (some r) db =
    restock_return-TakenBack now payment_id id r db
take_back-TakenBack now payment_id (some id) none db = record {
  frame = refl;
  stock = omega arith;
  returns = refl;
}
take_back-TakenBack now payment_id none returned db = record {
  frame = refl;
  stock = omega arith;
  returns = refl;
}
