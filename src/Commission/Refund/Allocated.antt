-- ===== src/Commission/Refund/Allocated.antt =====
-- What a refund is made of: merchandise and shipping add up to the amount, and the shares of the
-- sellers to the merchandise.
use drip_marketplace.Prelude.{
  select-append, ◌<◌, ◌++◌, All, sum_of-append, Option-cases, some, ℕ, ◌+◌, ◌-◌, ◌≤◌, ◌≡◌, refl,
  inl, inr, List, [], ◌∷◌, arith, min, sum_of, ltb, Bool-cases,
}
use drip_marketplace.Db.{
  RefundAllocation, RefundAccounting, insert, insert-append, lookup-insert, Ends-weaken, Ends-bind,
  Ends-require, Ends-guard, historical_refunds, Db, Order, Error, Ends, ◌>>=◌, ◌>>◌, lookup,
  exceeds_merchandise_and_shipping, no_seller_allocation,
}
use drip_marketplace.Commission.Split.{Part, part_amount}
use drip_marketplace.Commission.Split.Exact.{Fits, split_allocation-exact}
use drip_marketplace.Commission.Settle.{AllocationRow, of_refund}
use drip_marketplace.Commission.Refund.{
  is_empty, has_unallocated, capacities, new_allocation, new_accounting, store_plan, resolve,
  create_refund_accounting, seller_of, add_allocation, add_allocations, Target, Plan, plan,
  plan_return, plan_order, prior_shipping,
}

-- A plan that accounts for the whole amount, with shares within the capacities.
pub record Accounts (amount : ℕ) (caps : List Part) (p : Plan) : Type 0 where
  pub whole : p.merchandise + p.shipping ≡ amount
  pub shares_whole : sum_of part_amount p.shares ≡ p.merchandise
  pub fits : Fits p.shares caps

-- A direct refund that the order can take is planned in full, within the capacities and the shipping
-- that is left; it is refused exactly when it is larger than both together. The database stays.
pub plan_order-Accounts :
    (amount order_id : ℕ) (order : Order) (caps : List Part) (db : Db)
    → Ends
        (λ p db'.
          (db' ≡ db)
          × Accounts amount caps p
          × (p.shipping ≤ order.shipping_fee - prior_shipping order_id db))
        (λ e.
          (e ≡ exceeds_merchandise_and_shipping)
          × (sum_of part_amount caps + (order.shipping_fee - prior_shipping order_id db) + 1
              ≤ amount))
        (plan_order amount order_id order caps db)
unfolding plan_order
plan_order-Accounts amount order_id order caps db =
    let merchandise = min amount (sum_of part_amount caps) in
    let (shares, split, adds_up, fits) = split_allocation-exact merchandise caps db (omega arith) in
    elim (Bool-cases
      (ltb (order.shipping_fee - prior_shipping order_id db) (amount - merchandise))) [
        | inl larger ↦ rw (larger, ◌>>◌, Ends) (refl, ground arith)
        | inr covered ↦
            rw (covered, ◌>>◌, split, ◌>>=◌, Ends)
              (
                refl,
                record { whole = omega arith; shares_whole = adds_up; fits = fits },
                ground arith,
              )
      ]

-- The merchandise that a refund's allocations stand for.
abbrev pub refund_merchandise : ℕ → Db → ℕ
refund_merchandise refund_id db =
    sum_of (λ (row : AllocationRow). row.1.merchandise_amount) (of_refund refund_id db)

-- The next identifier is larger than those in use.
abbrev pub IsFresh : Db → Type 0
IsFresh db = All (λ (row : AllocationRow). row.0 < db.next_id) db.allocations

All-lt_suc :
    (k : ℕ) (t : List AllocationRow)
    → All (λ (row : AllocationRow). row.0 < k) t
    → All (λ (row : AllocationRow). row.0 < k + 1) t
All-lt_suc k [] h = tt
All-lt_suc k (row ∷ t) h = (omega arith, All-lt_suc k t h.1)

All-append_one :
    (k : ℕ) (a : RefundAllocation) (t : List AllocationRow)
    → All (λ (row : AllocationRow). row.0 < k) t
    → All (λ (row : AllocationRow). row.0 < k + 1) (t ++ (k, a) ∷ [])
All-append_one k a [] h = (omega arith, tt)
All-append_one k a (row ∷ t) h = (omega arith, All-append_one k a t h.1)

-- The shares are all recorded: the refund's allocations grow by exactly their sum.
record Recorded (refund_id : ℕ) (shares : List Part) (db db' : Db) : Type 0 where
  total :
      refund_merchandise refund_id db' ≡ refund_merchandise refund_id db + sum_of part_amount shares
  fresh : IsFresh db'
  accountings : db'.accountings ≡ db.accountings

add_allocation-Recorded :
    (refund_id : ℕ) (share : Part) (db : Db)
    → IsFresh db
    → Recorded refund_id (share ∷ []) db (add_allocation refund_id share db)
add_allocation-Recorded refund_id share db h =
    let a =
      new_allocation refund_id share.0 (seller_of (lookup share.0 db.seller_orders)) share.1 in
    record {
      total =
          rw (insert-append db.next_id a db.allocations h, select-append)
            (rw sum_of-append (ground arith));
      fresh =
          rw (insert-append db.next_id a db.allocations h)
            (All-append_one db.next_id a db.allocations h);
      accountings = refl;
    }

add_allocations-Recorded :
    (refund_id : ℕ) (shares : List Part) (db : Db)
    → IsFresh db
    → Recorded refund_id shares db (add_allocations refund_id shares db)
unfolding add_allocations
add_allocations-Recorded refund_id [] db h = record {
  total = omega arith;
  fresh = h;
  accountings = refl;
}
add_allocations-Recorded refund_id (share ∷ shares) db h = elim (Bool-cases (ltb 0 share.1)) [
  | inl positive ↦
      let one : Recorded refund_id (share ∷ []) db (add_allocation refund_id share db) =
        add_allocation-Recorded refund_id share db h in
      let rest : Recorded refund_id shares (add_allocation refund_id share db)
          (add_allocations refund_id shares (add_allocation refund_id share db)) =
        add_allocations-Recorded refund_id shares (add_allocation refund_id share db) one.fresh in
      rw positive (record {
        total = omega (arith, one.total, rest.total);
        fresh = rest.fresh;
        accountings = rest.accountings;
      })
  | inr nothing ↦
      let rest : Recorded refund_id shares db (add_allocations refund_id shares db) =
        add_allocations-Recorded refund_id shares db h in
      let zero : share.1 ≡ 0 = ground arith in
      rw nothing (record {
        total = omega (arith, rest.total, zero);
        fresh = rest.fresh;
        accountings = rest.accountings;
      })
]

-- No claim about which exception is raised.
abbrev pub AnyError : Error → Type 0
AnyError _ = Unit

-- A plan that accounts for the amount, made without a change to the database.
abbrev pub Planned : ℕ → Db → Plan → Db → Type 0
Planned amount db p db' =
    (db' ≡ db)
    × (p.merchandise + p.shipping ≡ amount)
    × (sum_of part_amount p.shares ≡ p.merchandise)

plan_return-Planned :
    (amount : ℕ) (caps : List Part) (db : Db)
    → Ends (Planned amount db) AnyError (plan_return amount caps db)
unfolding plan_return
plan_return-Planned amount [] db = tt
plan_return-Planned amount (cap ∷ caps) db = elim (Bool-cases (ltb cap.1 amount)) [
  | inl larger ↦ rw (larger, ◌>>◌, Ends) tt
  | inr covered ↦ rw (covered, ◌>>◌, Ends) (refl, omega arith, omega arith)
]

plan_order-Planned :
    (amount order_id : ℕ) (order : Order) (caps : List Part) (db : Db)
    → Ends (Planned amount db) AnyError (plan_order amount order_id order caps db)
plan_order-Planned amount order_id order caps db =
    Ends-weaken
      (λ p db'.
        (db' ≡ db)
        × Accounts amount caps p
        × (p.shipping ≤ order.shipping_fee - prior_shipping order_id db))
      (Planned amount db)
      (λ e.
        (e ≡ exceeds_merchandise_and_shipping)
        × (sum_of part_amount caps + (order.shipping_fee - prior_shipping order_id db) + 1
            ≤ amount))
      AnyError (plan_order amount order_id order caps db)
      (plan_order-Accounts amount order_id order caps db)
      (λ p db' h. (h.0, h.1.whole, h.1.shares_whole)) (λ e h. tt)

pub plan-Planned :
    (target : Target) (amount order_id : ℕ) (order : Order) (caps : List Part) (db : Db)
    → Ends (Planned amount db) AnyError (plan target amount order_id order caps db)
unfolding plan
plan-Planned (Target.for_seller_order _) amount order_id order caps db =
    plan_return-Planned amount caps db
plan-Planned (Target.for_order _) amount order_id order caps db =
    plan_order-Planned amount order_id order caps db
plan-Planned Target.unspecified amount order_id order caps db =
    plan_order-Planned amount order_id order caps db

pub resolve-frame :
    (target : Target) (db : Db) → Ends (λ _ db'. db' ≡ db) AnyError (resolve target db)
unfolding resolve
resolve-frame (Target.for_seller_order id) db = elim (Option-cases (lookup id db.seller_orders)) [
  | inl absent ↦ rw (absent, ◌>>=◌, Ends) tt
  | inr (so, found) ↦ rw (found, ◌>>=◌, Ends) refl
]
resolve-frame (Target.for_order order_id) db = refl
resolve-frame Target.unspecified db = tt

-- A refund that is written down: its accounting row divides the amount into merchandise and shipping,
-- and the refund's allocations have grown by exactly that merchandise.
abbrev pub WrittenDown : ℕ → ℕ → Db → Db → Type 0
WrittenDown refund_id amount db db' =
    (a : RefundAccounting) × (lookup refund_id db'.accountings ≡ some a)
    × (a.merchandise_amount + a.shipping_amount ≡ amount)
    × (refund_merchandise refund_id db' ≡ refund_merchandise refund_id db + a.merchandise_amount)
    × IsFresh db'

store_plan-WrittenDown :
    (refund_id amount : ℕ) (p : Plan) (db : Db)
    → IsFresh db
    → p.merchandise + p.shipping ≡ amount
    → sum_of part_amount p.shares ≡ p.merchandise
    → WrittenDown refund_id amount db (store_plan refund_id p db)
store_plan-WrittenDown refund_id amount p db h whole shares =
    let base = record db { accountings = insert refund_id (new_accounting p) db.accountings } in
    let r : Recorded refund_id p.shares base (add_allocations refund_id p.shares base) =
      add_allocations-Recorded refund_id p.shares base h in
    (
      new_accounting p,
      rw r.accountings
          (ground (arith, lookup-insert refund_id refund_id (new_accounting p) db.accountings)),
      whole,
      omega (arith, r.total, shares),
      r.fresh,
    )

-- A confirmed refund that is written down, whatever it is for, divides its amount into merchandise and
-- shipping to the paisa, and its shares add up to exactly the merchandise.
pub create_refund_accounting-WrittenDown :
    (refund_id amount : ℕ) (target : Target) (db : Db)
    → IsFresh db
    → Ends
        (λ _ db'. WrittenDown refund_id amount db db')
        AnyError
        (create_refund_accounting refund_id target amount db)
unfolding create_refund_accounting
create_refund_accounting-WrittenDown refund_id amount target db h =
    Ends-bind (resolve target) (λ _ t. t ≡ db) (λ _ db'. WrittenDown refund_id amount db db')
      AnyError db _ (resolve-frame target db)
      (λ r t same. rw same (
        Ends-require P AnyError db (lookup r.0 db.orders) no_seller_allocation _ (λ _. tt)
          (λ order _.
            Ends-guard P AnyError db (is_empty r.1) no_seller_allocation _ (λ _. tt)
              (λ _.
                Ends-guard P AnyError db (has_unallocated refund_id r.0 db) historical_refunds _
                  (λ _. tt)
                  (λ _.
                    Ends-bind (plan target amount r.0 order (capacities r.1 db)) (Planned amount db)
                      P AnyError db _ (plan-Planned target amount r.0 order (capacities r.1 db) db)
                      (λ p u made.
                        rw made.0
                          (store_plan-WrittenDown refund_id amount p db h made.1 made.2)))))))
  where
    P : Unit {0} → Db → Type 0
    P _ db' = WrittenDown refund_id amount db db'
