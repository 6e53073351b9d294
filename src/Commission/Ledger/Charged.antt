-- ===== src/Commission/Ledger/Charged.antt =====
-- `_apply_allocation` charges a refund's share once: the ledger, the allocation and the wallets move by
-- the same amounts, and the books stay valid.
use drip_marketplace.Prelude.{
  ℕ, ◌+◌, ◌≤◌, ◌<◌, ◌≡◌, refl, ap, inl, inr, Bool, true, false, none, some, arith, is_some,
  Bool-cases, Option-cases, ltb,
}
use drip_marketplace.Db.{
  Db, Error, CommissionLedger, RefundAllocation, Ends, Ends-bind, Ends-weaken, ◌>>◌, Never, Holds,
  Holds-insert, Rows, Rows-insert, lookup, modify, total, total-modify_same, net_gross_amount,
  net_commission_amount, allocation_exceeds_gross,
}
use drip_marketplace.Commission.Debit.{apply_debit}
use drip_marketplace.Commission.Debit.Wallet.{holdings, Takes, apply_debit-Takes}
use drip_marketplace.Commission.Ledger.{
  reversal_split, Charge, charge_ledger, charge_allocation, refund_reference, lower_totals,
  store_charge, offset_charge, debit_charge, charge, charge_checked, apply_allocation,
}
use drip_marketplace.Commission.Ledger.Reversal.{
  IsValidLedger, Divides, reversal_split-Divides, Settles, charge_ledger-IsValidLedger,
}

-- The CHECK constraints of `refund_allocations`.
pub record IsValidAllocation (a : RefundAllocation) : Type 0 where
  pub met :
      a.recovered_amount + a.settlement_offset_amount + a.platform_shortfall_amount
      ≡ a.seller_reversal_amount
  pub whole :
      is_some a.applied_at ≡ true
      → a.commission_reversal_amount + a.seller_reversal_amount ≡ a.merchandise_amount

-- The ledgers and the allocations satisfy their constraints.
pub record Books (db : Db) : Type 0 where
  pub ledgers_valid : Holds IsValidLedger db.ledgers
  pub allocations_valid : Rows IsValidAllocation db.allocations

-- The charge `c` of the share `allocation` to the ledger `l` is all that leads from `db` to `db'`: both
-- rows record it, the wallets lose what was recovered, and the other tables stay.
pub record ChargedBy (now : ℕ) (offset : Bool) (id : ℕ) (allocation : RefundAllocation)
    (l : CommissionLedger) (c : Charge) (db db' : Db) : Type 0 where
  pub merchandise : c.merchandise ≡ allocation.merchandise_amount
  pub settles : Settles c
  pub commission_fits : c.commission_reversal ≤ net_commission_amount l
  pub seller_fits : c.seller_reversal + l.reversed_seller_amount ≤ l.seller_amount
  pub books : db' ≡ record (store_charge now id allocation l c db) {
    wallets = db'.wallets;
    transactions = db'.transactions;
  }
  -- Before settlement the wallets are not touched; after it nothing is offset.
  pub by_offset : offset ≡ true → (c.recovered ≡ 0) × (c.shortfall ≡ 0) × (db'.wallets ≡ db.wallets)
  pub by_debit : offset ≡ false → c.offset ≡ 0
  pub money : total holdings db'.wallets + c.recovered ≡ total holdings db.wallets

abbrev pub Charged : ℕ → Bool → ℕ → RefundAllocation → CommissionLedger → Db → Db → Type 0
Charged now offset id allocation l db db' =
    (c : Charge) × ChargedBy now offset id allocation l c db db'

charge-Charged :
    (now : ℕ) (offset : Bool) (id : ℕ) (a : RefundAllocation) (l : CommissionLedger) (parts : ℕ × ℕ)
    (db : Db)
    → Divides a.merchandise_amount l parts
    → IsValidLedger l
    → Ends
        (λ done db'. (done ≡ true) × Charged now offset id a l db db')
        Never
        (charge now offset id a l parts db)
unfolding charge
charge-Charged now true id a l parts db d v = (
  refl,
  (
    offset_charge a.merchandise_amount parts,
    record {
      merchandise = refl;
      settles = omega arith;
      commission_fits = d.commission_fits;
      seller_fits = omega (arith, d.seller_fits, v.seller_capped);
      books = refl;
      by_offset = λ _. (refl, refl, refl);
      by_debit = λ e. absurd (ground arith);
      money = omega arith;
    },
  ),
)
charge-Charged now false id a l parts db d v =
    let reference =
      refund_reference (lookup a.refund_id db.refunds) a.refund_id a.seller_order_id in
    Ends-bind (apply_debit l.seller_id parts.1 reference a.seller_order_id (is_some l.released_at))
      (Takes parts.1 db) _ _ db _
      (apply_debit-Takes l.seller_id parts.1 reference a.seller_order_id (is_some l.released_at) db)
      (λ recovered t h. (
        refl,
        (
          debit_charge a.merchandise_amount parts recovered,
          record {
            merchandise = refl;
            settles = omega (arith, h.0, d.whole);
            commission_fits = d.commission_fits;
            seller_fits = omega (arith, d.seller_fits, v.seller_capped);
            books =
                ap
                  (λ (d : Db).
                    record (store_charge now id a l
                      (debit_charge a.merchandise_amount parts recovered) d) {
                        wallets = modify l.seller_id (lower_totals parts.1 parts.0) t.wallets;
                        transactions = t.transactions;
                      })
                  h.2;
            by_offset = λ e. absurd (ground arith);
            by_debit = λ _. refl;
            money = omega (
              arith,
              h.1,
              total-modify_same holdings l.seller_id (lower_totals parts.1 parts.0) t.wallets
                  (λ w. refl),
            );
          },
        ),
      ))

charge_checked-Charged :
    (now : ℕ) (offset : Bool) (id : ℕ) (a : RefundAllocation) (l : CommissionLedger) (db : Db)
    → IsValidLedger l
    → Ends
        (λ done db'.
          (done ≡ true)
          × (a.merchandise_amount ≤ net_gross_amount l)
          × Charged now offset id a l db db')
        (λ e. (e ≡ allocation_exceeds_gross) × (net_gross_amount l < a.merchandise_amount))
        (charge_checked now offset id a l db)
charge_checked-Charged now offset id a l db v =
    elim (Bool-cases (ltb (net_gross_amount l) a.merchandise_amount)) [
      | inl larger ↦ rw (larger, Ends) (refl, ground arith)
      | inr covered ↦
          let d : Divides a.merchandise_amount l (reversal_split a.merchandise_amount l) =
            reversal_split-Divides a.merchandise_amount l v (ground arith) in
          let fits : ltb (net_commission_amount l) (reversal_split a.merchandise_amount l).0
              ≡ false =
            ground (arith, d.commission_fits) in
          rw (covered, fits, Ends, ◌>>◌)
            (Ends-weaken (λ done db'. (done ≡ true) × Charged now offset id a l db db')
              (λ done db'.
                (done ≡ true)
                × (a.merchandise_amount ≤ net_gross_amount l)
                × Charged now offset id a l db db')
              Never
              (λ e. (e ≡ allocation_exceeds_gross) × (net_gross_amount l < a.merchandise_amount))
              (charge now offset id a l (reversal_split a.merchandise_amount l) db)
              (charge-Charged now offset id a l (reversal_split a.merchandise_amount l) db d v)
              (λ _ _ h. (h.0, ground arith, h.1)) (λ _ e. absurd e))
    ]

-- How the operation ends well: the share was charged before, it is not charged and has no ledger to be charged
-- to yet, or it is not charged, its ledger has enough left for it, and it is charged now.
pub data AppliedTo (now : ℕ) (offset : Bool) (id : ℕ) (a : RefundAllocation) (db : Db) (done : Bool)
    (db' : Db) : Type 0 where
  before :
      is_some a.applied_at ≡ true → done ≡ true → db' ≡ db → AppliedTo now offset id a db done db'
  unsettled :
      is_some a.applied_at ≡ false
      → lookup a.seller_order_id db.ledgers ≡ none
      → done ≡ false
      → db' ≡ db
      → AppliedTo now offset id a db done db'
  charged :
      is_some a.applied_at ≡ false
      → (l : CommissionLedger) → lookup a.seller_order_id db.ledgers ≡ some l
      → a.merchandise_amount ≤ net_gross_amount l
      → done ≡ true
      → Charged now offset id a l db db'
      → AppliedTo now offset id a db done db'

-- How it fails: the share is not charged, and is larger than what its ledger has left.
pub record IsTooLarge (a : RefundAllocation) (db : Db) (e : Error) : Type 0 where
  pub raised : e ≡ allocation_exceeds_gross
  pub waiting : is_some a.applied_at ≡ false
  pub ledger : CommissionLedger
  pub found : lookup a.seller_order_id db.ledgers ≡ some ledger
  pub larger : net_gross_amount ledger < a.merchandise_amount

-- On valid books, a share that was charged before and a share without a ledger change nothing and are told apart
-- by the answer; any other share is charged, unless it is larger than what its ledger has left, and fails then.
pub apply_allocation-AppliedTo :
    (now : ℕ) (offset : Bool) (id : ℕ) (a : RefundAllocation) (db : Db)
    → Books db
    → Ends (AppliedTo now offset id a db) (IsTooLarge a db) (apply_allocation now offset id a db)
unfolding apply_allocation
apply_allocation-AppliedTo now offset id a db b = elim (Bool-cases (is_some a.applied_at)) [
  | inl applied ↦ rw (applied, Ends) (AppliedTo.before applied refl refl)
  | inr waiting ↦ elim (Option-cases (lookup a.seller_order_id db.ledgers)) [
    | inl absent ↦ rw (waiting, absent, Ends) (AppliedTo.unsettled waiting absent refl refl)
    | inr (l, found) ↦
        rw (waiting, found, Ends)
          (Ends-weaken
            (λ done db'.
              (done ≡ true)
              × (a.merchandise_amount ≤ net_gross_amount l)
              × Charged now offset id a l db db')
            (AppliedTo now offset id a db)
            (λ e. (e ≡ allocation_exceeds_gross) × (net_gross_amount l < a.merchandise_amount))
            (IsTooLarge a db) (charge_checked now offset id a l db)
            (charge_checked-Charged now offset id a l db (b.ledgers_valid _ l found))
            (λ done t h. AppliedTo.charged waiting l found h.1 h.0 h.2)
            (λ e h. record {
              raised = h.0;
              waiting = waiting;
              ledger = l;
              found = found;
              larger = h.1;
            }))
  ]
]

-- Charging keeps the books.
pub ChargedBy-Books :
    (now : ℕ) (offset : Bool) (id : ℕ) (a : RefundAllocation) (l : CommissionLedger) (c : Charge)
    (db db' : Db)
    → Books db
    → lookup a.seller_order_id db.ledgers ≡ some l
    → ChargedBy now offset id a l c db db'
    → Books db'
ChargedBy-Books now offset id a l c db db' b found h = rw h.books (record {
  ledgers_valid =
      Holds-insert IsValidLedger a.seller_order_id (charge_ledger c l) db.ledgers
        (charge_ledger-IsValidLedger c l (b.ledgers_valid _ l found) h.commission_fits
          (omega (arith, h.seller_fits)) h.settles)
        b.ledgers_valid;
  allocations_valid =
      Rows-insert IsValidAllocation id (charge_allocation now l.commission_rate c a) db.allocations
        (omega (arith, h.settles, h.merchandise)) b.allocations_valid;
})
