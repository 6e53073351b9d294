-- ===== src/Tests/Commission.antt =====
-- The settlement services on the databases of Tests.
use mathlib.Core.Path.{subst}
use drip_marketplace.Prelude.{
  ℕ, ◌+◌, ◌-◌, ◌≤◌, ◌≡◌, refl, true, false, some, List, [], ◌∷◌, map, arith, sum_of,
}
use drip_marketplace.Money.{div_half_up}
use drip_marketplace.Db.{
  Db, Reference, Ends, Never, Holds, ok, CommissionLedger, SellerWallet, lookup, modify, insert,
  exceeds_merchandise_and_shipping,
}
use drip_marketplace.Commission.Split.{Part, part_amount, split_allocation}
use drip_marketplace.Commission.Split.Exact.{Fits, split_allocation-exact}
use drip_marketplace.Commission.Debit.{debit_parts, apply_debit}
use drip_marketplace.Commission.Debit.Wallet.{
  holdings, Takes, apply_debit-Takes, debit_parts_covered,
}
use drip_marketplace.Commission.Ledger.{commission_on, reversal_split, charge, apply_allocation}
use drip_marketplace.Commission.Ledger.Reversal.{IsValidLedger, Divides, reversal_split-Divides}
use drip_marketplace.Commission.Ledger.Charged.{
  IsValidAllocation, Books, AppliedTo, IsTooLarge, apply_allocation-AppliedTo,
}
use drip_marketplace.Commission.Settle.{
  apply_all, refresh_refund_accounting, refreshed, of_refund, after_refresh, settle,
}
use drip_marketplace.Commission.Settle.Loop.{Progress}
use drip_marketplace.Commission.Settle.Shares.{ChargesAll, AsksTooMuch}
use drip_marketplace.Commission.Settle.Once.{SettleFails, settle_twice}
use drip_marketplace.Commission.Release.{release_mature}
use drip_marketplace.Commission.Release.Conserves.{Moves, release_mature-Moves}
use drip_marketplace.Commission.Refund.{
  Target, prior_shipping, plan_order, create_refund_accounting, ensure_accounting,
  pending_of_refund, reverse_for_refund,
}
use drip_marketplace.Commission.Refund.Allocated.{
  Accounts, plan_order-Accounts, refund_merchandise, AnyError, WrittenDown,
  create_refund_accounting-WrittenDown,
}
use drip_marketplace.Commission.Refund.Reversed.{
  Funded, refreshed-Funded, reverse_for_refund-Progress,
}
use drip_marketplace.Commission.Refund.Repeated.{redated, reverse_twice}
use drip_marketplace.Tests.{wallet, order, shop, ledger, share, accounting, sold}

shop-Books : Books shop
unfolding lookup
shop-Books = record { ledgers_valid = λ k l e. absurd (ground arith); allocations_valid = tt }

ledger-IsValidLedger : IsValidLedger ledger
ledger-IsValidLedger = omega arith

-- The one row of a table is what a lookup finds in it.
only_row : (k j : ℕ) (v l : CommissionLedger) → lookup j ((k, v) ∷ []) ≡ some l → v ≡ l
unfolding lookup
only_row k j v l e = ground arith

sold-ledgers : Holds IsValidLedger sold.ledgers
sold-ledgers k l e = subst IsValidLedger (only_row 21 k ledger l e) ledger-IsValidLedger

share-IsValidAllocation : IsValidAllocation share
share-IsValidAllocation = record { met = refl; whole = λ e. absurd (ground arith) }

sold-Books : Books sold
sold-Books = record {
  ledgers_valid = sold-ledgers;
  allocations_valid = (share-IsValidAllocation, tt);
}

settle_twice_example :
    Ends (λ _ db'. settle 500 21 db' ≡ ok tt db') (SettleFails 400 21 shop) (settle 400 21 shop)
settle_twice_example = settle_twice 400 500 21 shop shop-Books (omega arith)

apply_allocation-AppliedTo_example :
    Ends
      (AppliedTo 400 false 50 share sold)
      (IsTooLarge share sold)
      (apply_allocation 400 false 50 share sold)
apply_allocation-AppliedTo_example = apply_allocation-AppliedTo 400 false 50 share sold sold-Books

split_allocation-exact_example :
    (shares : List Part) × (split_allocation 150000 ((21, 100001) ∷ (22, 100001) ∷ []) shop
      ≡ ok shares shop)
    × (sum_of part_amount shares ≡ 150000)
    × Fits shares ((21, 100001) ∷ (22, 100001) ∷ [])
split_allocation-exact_example =
    split_allocation-exact 150000 ((21, 100001) ∷ (22, 100001) ∷ []) shop (omega arith)

apply_debit-Takes_example :
    Ends (Takes 43751 sold) Never (apply_debit 7 43751 (Reference.order_refund 9 21) 21 false sold)
apply_debit-Takes_example = apply_debit-Takes 7 43751 (Reference.order_refund 9 21) 21 false sold

debit_parts_covered_example :
    (20000 ≤ holdings wallet
      → (debit_parts false 20000 wallet).0 + (debit_parts false 20000 wallet).1 ≡ 20000)
    × (20000 ≤ wallet.available_balance → debit_parts true 20000 wallet ≡ (0, 20000))
debit_parts_covered_example = debit_parts_covered 20000 wallet

reversal_split-Divides_example : Divides 50000 ledger (reversal_split 50000 ledger)
reversal_split-Divides_example =
    reversal_split-Divides 50000 ledger ledger-IsValidLedger (omega arith)

release_mature-Moves_example :
    Ends (λ _ db'. Moves sold db') Never (release_mature 700000 (λ _. false) sold)
release_mature-Moves_example = release_mature-Moves 700000 (λ _. false) sold

plan_order-Accounts_example :
    Ends
      (λ p db'.
        (db' ≡ shop)
        × Accounts 150000 ((21, 100001) ∷ (22, 100001) ∷ []) p
        × (p.shipping ≤ 20000 - prior_shipping 1 shop))
      (λ e.
        (e ≡ exceeds_merchandise_and_shipping)
        × (sum_of part_amount ((21, 100001) ∷ (22, 100001) ∷ [])
              + (20000 - prior_shipping 1 shop)
              + 1
            ≤ 150000))
      (plan_order 150000 1 order ((21, 100001) ∷ (22, 100001) ∷ []) shop)
plan_order-Accounts_example =
    plan_order-Accounts 150000 1 order ((21, 100001) ∷ (22, 100001) ∷ []) shop

create_refund_accounting-WrittenDown_example :
    Ends
      (λ _ db'. WrittenDown 9 150000 shop db')
      AnyError
      (create_refund_accounting 9 (Target.for_order 1) 150000 shop)
create_refund_accounting-WrittenDown_example =
    create_refund_accounting-WrittenDown 9 150000 (Target.for_order 1) shop tt

refreshed-Funded_example :
    Funded (refund_merchandise 9 sold) (refreshed 400 (of_refund 9 sold) accounting)
refreshed-Funded_example = refreshed-Funded 400 9 accounting sold sold-Books

reverse_for_refund-Progress_example :
    Ends
      (λ _ db'.
        (t : Db) × Progress false sold t
        × ChargesAll (pending_of_refund 9 sold) sold t
        × (db' ≡ after_refresh 400 9 t))
      (AsksTooMuch (pending_of_refund 9 sold) sold)
      (reverse_for_refund 400 9 (Target.for_order 1) 50000 sold)
unfolding lookup
reverse_for_refund-Progress_example =
    reverse_for_refund-Progress 400 9 50000 (Target.for_order 1) accounting sold sold-Books refl

reverse_twice_example :
    Ends
      (λ _ db'. reverse_for_refund 500 9 (Target.for_order 2) 70000 db' ≡ ok tt (redated 500 9 db'))
      (AsksTooMuch (pending_of_refund 9 sold) sold)
      (reverse_for_refund 400 9 (Target.for_order 1) 50000 sold)
unfolding lookup
reverse_twice_example =
    reverse_twice 400 500 9 50000 70000 (Target.for_order 1) (Target.for_order 2) accounting sold
      sold-Books (tt, tt) refl

-- The refund of half of the settled part takes the seller's 437.50 rupees from the held balance.
half_refunded :
    Ends
      (λ _ db'.
        (map (λ (w : ℕ × SellerWallet). (w.1).pending_balance) db'.wallets ≡ 43751 ∷ 0 ∷ []))
      Never
      (reverse_for_refund 400 9 (Target.for_order 1) 50000 sold)
unfolding reverse_for_refund ensure_accounting apply_all refresh_refund_accounting apply_allocation
    charge apply_debit debit_parts reversal_split commission_on div_half_up lookup modify insert
half_refunded = refl
