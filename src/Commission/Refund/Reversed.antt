-- ===== src/Commission/Refund/Reversed.antt =====
-- `reverse_for_refund`: it charges every share that can be charged, takes money out of wallets only, and when it
-- has reconciled a refund every paisa of it is paid for.
use drip_marketplace.Prelude.{
  ℕ, ◌+◌, ◌≡◌, refl, true, false, some, List, [], ◌∷◌, arith, sum_of, all, All, is_some, Bool-cases,
  inl, inr,
}
use drip_marketplace.Db.{Db, RefundAccounting, Ends, Ends-then, Rows-select, lookup, ◌>>◌}
use drip_marketplace.Commission.Ledger.Charged.{IsValidAllocation, Books}
use drip_marketplace.Commission.Settle.{
  AllocationRow, apply_all, refreshed, of_refund, after_refresh, refresh_refund_accounting,
}
use drip_marketplace.Commission.Settle.Loop.{Progress}
use drip_marketplace.Commission.Settle.Charging.{apply_all-ChargesAll}
use drip_marketplace.Commission.Settle.Shares.{ChargesAll, AsksTooMuch}
use drip_marketplace.Commission.Refund.{
  Target, pending_of_refund, ensure_accounting, reverse_for_refund,
}
use drip_marketplace.Commission.Refund.Allocated.{refund_merchandise}

-- How the totals of a list of valid allocations hang together.
record Balanced (rows : List AllocationRow) : Type 0 where
  met :
      sum_of (λ (r : AllocationRow). r.1.recovered_amount) rows
        + sum_of (λ (r : AllocationRow). r.1.settlement_offset_amount) rows
        + sum_of (λ (r : AllocationRow). r.1.platform_shortfall_amount) rows
      ≡ sum_of (λ (r : AllocationRow). r.1.seller_reversal_amount) rows
  whole :
      all (λ (r : AllocationRow). is_some r.1.applied_at) rows ≡ true
      → sum_of (λ (r : AllocationRow). r.1.commission_reversal_amount) rows
          + sum_of (λ (r : AllocationRow). r.1.seller_reversal_amount) rows
        ≡ sum_of (λ (r : AllocationRow). r.1.merchandise_amount) rows

rows-Balanced :
    (rows : List AllocationRow)
    → All (λ (r : AllocationRow). IsValidAllocation r.1) rows
    → Balanced rows
rows-Balanced [] h = record { met = omega arith; whole = λ _. omega arith }
rows-Balanced (r ∷ rows) h =
    let rest : Balanced rows = rows-Balanced rows h.1 in
    record {
      met = omega (arith, rest.met, (h.0).met);
      whole = λ e. ground (arith, rest.whole, (h.0).whole);
    }

-- The accounting of a refund after its totals are refreshed.
pub record Funded (merchandise : ℕ) (a : RefundAccounting) : Type 0 where
  pub seller_part :
      a.recovered_amount + a.settlement_offset_amount + a.platform_shortfall_amount
      ≡ a.seller_reversal_amount
  pub platform_part :
      a.platform_funded_amount
      ≡ a.shipping_amount + a.commission_reversal_amount + a.platform_shortfall_amount
  pub reconciled :
      is_some a.reconciled_at ≡ true
      → a.recovered_amount + a.settlement_offset_amount + a.platform_funded_amount
        ≡ merchandise + a.shipping_amount

-- When the totals are refreshed, the two CHECK constraints on them hold; and once a refund is marked
-- reconciled, what the sellers gave back, what was offset before settlement and what the platform pays
-- add up to exactly its merchandise and its shipping.
pub refreshed-Funded :
    (now refund_id : ℕ) (a : RefundAccounting) (db : Db)
    → Books db
    → Funded (refund_merchandise refund_id db) (refreshed now (of_refund refund_id db) a)
refreshed-Funded now refund_id a db b =
    let rows = of_refund refund_id db in
    let h : Balanced rows =
      rows-Balanced rows (Rows-select IsValidAllocation _ db.allocations b.allocations_valid) in
    record {
      seller_part = h.met;
      platform_part = refl;
      reconciled = λ e.
          elim (Bool-cases (all (λ (r : AllocationRow). is_some r.1.applied_at) rows)) [
            | inl all_applied ↦ omega (arith, h.met, h.whole all_applied)
            | inr waiting ↦ absurd (ground arith)
          ];
    }

-- On valid books, a refund that is written down is charged: every pending share of it that has a ledger is charged
-- and the ledger is refunded by exactly what its shares come to, the books stay valid, the ledgers keep their
-- terms, and money leaves wallets and never enters them. It fails only when the shares ask more of a ledger than it
-- has left.
pub reverse_for_refund-Progress :
    (now refund_id amount : ℕ) (target : Target) (a : RefundAccounting) (db : Db)
    → Books db
    → lookup refund_id db.accountings ≡ some a
    → Ends
        (λ _ db'.
          (t : Db) × Progress false db t
          × ChargesAll (pending_of_refund refund_id db) db t
          × (db' ≡ after_refresh now refund_id t))
        (AsksTooMuch (pending_of_refund refund_id db) db)
        (reverse_for_refund now refund_id target amount db)
unfolding reverse_for_refund ensure_accounting refresh_refund_accounting
reverse_for_refund-Progress now refund_id amount target a db b found =
    let rows = pending_of_refund refund_id db in
    rw (found, ◌>>◌, Ends)
      (Ends-then (apply_all now false rows) (λ _ t. Progress false db t × ChargesAll rows db t)
        (λ _ db'.
          (t : Db) × Progress false db t
          × ChargesAll rows db t
          × (db' ≡ after_refresh now refund_id t))
        (AsksTooMuch rows db) db (refresh_refund_accounting now refund_id)
        (apply_all-ChargesAll now false rows db b) (λ _ t p. (t, p.0, p.1, refl)))
