-- ===== src/Commission/Refund/Frame.antt =====
-- What `reverse_for_refund` leaves alone: every table but the financial ones that it charges.
use drip_marketplace.Prelude.{
  ℕ, ◌≤◌, ◌≡◌, refl, sym, ap, ◌∙◌, inl, inr, false, List, [], ◌∷◌, arith, ltb, is_some, Bool-cases,
}
use drip_marketplace.Db.{
  Db, Ends, Ends-bind, Ends-then, Ends-guard, Ends-require, Ends-weaken, Rows-insert, lookup,
  insert,
}
use drip_marketplace.Commission.Split.{Part}
use drip_marketplace.Commission.Ledger.Charged.{IsValidAllocation, Books}
use drip_marketplace.Commission.Settle.{apply_all, refresh_refund_accounting, after_refresh}
use drip_marketplace.Commission.Settle.Loop.{Progress}
use drip_marketplace.Commission.Settle.Charging.{apply_all-ChargesAll}
use drip_marketplace.Commission.Settle.Shares.{ChargesAll}
use drip_marketplace.Commission.Settle.Once.{Books-tables}
use drip_marketplace.Commission.Refund.{
  Target, Plan, resolve, is_empty, has_unallocated, capacities, plan, new_accounting,
  new_allocation, seller_of, add_allocation, add_allocations, store_plan, create_refund_accounting,
  ensure_accounting, pending_of_refund, reverse_for_refund,
}
use drip_marketplace.Commission.Refund.Allocated.{AnyError, Planned, plan-Planned, resolve-frame}

pub record Touches (db t : Db) : Type 0 where
  pub books : Books t
  pub frame : t ≡ record db {
    wallets = t.wallets;
    transactions = t.transactions;
    ledgers = t.ledgers;
    accountings = t.accountings;
    allocations = t.allocations;
    next_id = t.next_id;
  }
  pub later : db.next_id ≤ t.next_id

Touches-refl : (db : Db) → Books db → Touches db db
Touches-refl db b = record { books = b; frame = refl; later = omega arith }

Touches-trans : (db t u : Db) → Touches db t → Touches t u → Touches db u
Touches-trans db t u p q = record {
  books = q.books;
  frame =
      q.frame
      ∙ ap
          (λ (x : Db). record x {
            wallets = u.wallets;
            transactions = u.transactions;
            ledgers = u.ledgers;
            accountings = u.accountings;
            allocations = u.allocations;
            next_id = u.next_id;
          })
          p.frame;
  later = omega (arith, p.later, q.later);
}

new_allocation-IsValidAllocation :
    (refund_id so seller amount : ℕ) → IsValidAllocation (new_allocation refund_id so seller amount)
new_allocation-IsValidAllocation refund_id so seller amount = record {
  met = omega arith;
  whole = λ e. absurd (ground arith);
}

add_allocation-Touches :
    (refund_id : ℕ) (share : Part) (db : Db)
    → Books db
    → Touches db (add_allocation refund_id share db)
add_allocation-Touches refund_id share db b =
    let seller = seller_of (lookup share.0 db.seller_orders) in
    record {
      books = record {
        ledgers_valid = b.ledgers_valid;
        allocations_valid =
            Rows-insert IsValidAllocation db.next_id
              (new_allocation refund_id share.0 seller share.1) db.allocations
              (new_allocation-IsValidAllocation refund_id share.0 seller share.1)
              b.allocations_valid;
      };
      frame = refl;
      later = omega arith;
    }

add_allocations-Touches :
    (refund_id : ℕ) (shares : List Part) (db : Db)
    → Books db
    → Touches db (add_allocations refund_id shares db)
unfolding add_allocations
add_allocations-Touches refund_id [] db b = Touches-refl db b
add_allocations-Touches refund_id (share ∷ shares) db b = elim (Bool-cases (ltb 0 share.1)) [
  | inl positive ↦
      let one : Touches db (add_allocation refund_id share db) =
        add_allocation-Touches refund_id share db b in
      rw positive (
        Touches-trans db (add_allocation refund_id share db)
          (add_allocations refund_id shares (add_allocation refund_id share db)) one
          (add_allocations-Touches refund_id shares (add_allocation refund_id share db) one.books))
  | inr nothing ↦ rw nothing (add_allocations-Touches refund_id shares db b)
]

store_plan-Touches :
    (refund_id : ℕ) (p : Plan) (db : Db) → Books db → Touches db (store_plan refund_id p db)
store_plan-Touches refund_id p db b =
    let base = record db { accountings = insert refund_id (new_accounting p) db.accountings } in
    let based : Books base = Books-tables db base b refl refl in
    Touches-trans db base (add_allocations refund_id p.shares base)
      (record { books = based; frame = refl; later = omega arith })
      (add_allocations-Touches refund_id p.shares base based)

create_refund_accounting-Touches :
    (refund_id amount : ℕ) (target : Target) (db : Db)
    → Books db
    → Ends (λ _ t. Touches db t) AnyError (create_refund_accounting refund_id target amount db)
unfolding create_refund_accounting
create_refund_accounting-Touches refund_id amount target db b =
    Ends-bind (resolve target) (λ _ t. t ≡ db) P AnyError db _ (resolve-frame target db)
      (λ r t same. rw same (
        Ends-require P AnyError db (lookup r.0 db.orders) _ _ (λ _. tt)
          (λ order _.
            Ends-guard P AnyError db (is_empty r.1) _ _ (λ _. tt)
              (λ _.
                Ends-guard P AnyError db (has_unallocated refund_id r.0 db) _ _ (λ _. tt)
                  (λ _.
                    Ends-bind (plan target amount r.0 order (capacities r.1 db)) (Planned amount db)
                      P AnyError db _ (plan-Planned target amount r.0 order (capacities r.1 db) db)
                      (λ p u made. rw made.0 (store_plan-Touches refund_id p db b)))))))
  where
    P : Unit {0} → Db → Type 0
    P _ t = Touches db t

ensure_accounting-Touches :
    (refund_id amount : ℕ) (target : Target) (db : Db)
    → Books db
    → Ends (λ _ t. Touches db t) AnyError (ensure_accounting refund_id target amount db)
unfolding ensure_accounting
ensure_accounting-Touches refund_id amount target db b =
    elim (Bool-cases (is_some (lookup refund_id db.accountings))) [
      | inl there ↦ rw (there, Ends) (Touches-refl db b)
      | inr missing ↦
          rw (missing, Ends) (create_refund_accounting-Touches refund_id amount target db b)
    ]

Progress-Touches : (db t : Db) → Progress false db t → Touches db t
Progress-Touches db t p = record {
  books = p.books;
  frame =
      p.frame
      ∙ ap
          (λ (x : Db). record db {
            wallets = t.wallets;
            transactions = t.transactions;
            ledgers = t.ledgers;
            allocations = t.allocations;
            accountings = x.accountings;
            next_id = x.next_id;
          })
          (sym p.frame);
  later = omega (arith, ap (λ (x : Db). x.next_id) p.frame);
}

-- Whatever a refund is for, its charge keeps the books and touches the financial tables only.
pub reverse_for_refund-Touches :
    (now refund_id amount : ℕ) (target : Target) (db : Db)
    → Books db
    → Ends (λ _ t. Touches db t) AnyError (reverse_for_refund now refund_id target amount db)
unfolding reverse_for_refund refresh_refund_accounting
reverse_for_refund-Touches now refund_id amount target db b =
    Ends-then (ensure_accounting refund_id target amount) (λ _ t. Touches db t) P AnyError db _
      (ensure_accounting-Touches refund_id amount target db b)
      (λ _ t first.
        Ends-then (apply_all now false (pending_of_refund refund_id t)) (λ _ u. Progress false t u)
          P AnyError t (refresh_refund_accounting now refund_id)
          (Ends-weaken (λ _ u. Progress false t u × ChargesAll (pending_of_refund refund_id t) t u)
            (λ _ u. Progress false t u) _ AnyError
            (apply_all now false (pending_of_refund refund_id t) t)
            (apply_all-ChargesAll now false (pending_of_refund refund_id t) t first.books)
            (λ _ _ p. p.0) (λ _ _. tt))
          (λ _ u p.
            Touches-trans db u (after_refresh now refund_id u)
              (Touches-trans db t u first (Progress-Touches t u p))
              (record {
                books = Books-tables u (after_refresh now refund_id u) p.books refl refl;
                frame = refl;
                later = omega arith;
              })))
  where
    P : Unit {0} → Db → Type 0
    P _ t = Touches db t
