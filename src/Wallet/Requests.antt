-- ===== src/Wallet/Requests.antt =====
-- What a withdrawal request does.
use drip_marketplace.Prelude.{
  ℕ, ◌+◌, ◌≤◌, ◌≡◌, refl, inl, inr, true, false, some, List, arith, ltb, leb, ◌==◌, ==→eq,
  Bool-cases,
}
use drip_marketplace.Db.{
  Db, SellerWallet, Payout, PayoutStatus, Ends, Ends-guard, Ends-require, lookup, modify,
  total-modify, Holds-insert, Below, Below-lookup, Below-insert, insert, lookup-insert,
  lookup-insert_self, SellerBankAccount, total-insert_fresh, ◌>>◌,
}
use drip_marketplace.Commission.Release.Conserves.{available_total}
use drip_marketplace.Commission.Refund.Allocated.{AnyError}
use drip_marketplace.Wallet.{
  take_available, debit_available, new_payout, store_payout, request_withdrawal, owned_account,
}
use drip_marketplace.Wallet.Decision.{}
use drip_marketplace.Wallet.Payouts.{
  IsValidPayout, Follows-refl, Follow, outstanding, PayoutBooks, Reviewed,
}

-- A request that goes through: the amount is within the limits and leaves the seller's withdrawable
-- balance, and a payout of that amount waits for review.
pub record Requested (seller amount : ℕ) (db db' : Db) : Type 0 where
  pub above_minimum : db.settings.min_withdrawal_amount ≤ amount
  pub below_maximum : amount ≤ db.settings.max_withdrawal_amount
  pub debited : available_total db' + amount ≡ available_total db
  pub payout : Payout
  pub stored : lookup db.next_id db'.payouts ≡ some payout
  pub waits : payout.status ≡ PayoutStatus.requested
  pub for_seller : (payout.seller_id ≡ seller) × (payout.amount ≡ amount)
  pub reviewed : Reviewed db db'

insert-Follow :
    (n : ℕ) (new : Payout) (t : List (ℕ × Payout)) → Below n t → Follow t (insert n new t)
insert-Follow n new t h j p found = elim (Bool-cases (n == j)) [
  | inl same ↦ absurd (taken (rw (==→eq n j same) found))
  | inr other ↦ (p, rw (lookup-insert, other) found, Follows-refl p)
]
  where
    taken : lookup n t ≡ some p → ⊥
    taken e = ground (arith, Below-lookup n t h)

-- The seller's request.
module _ (seller amount account : ℕ) (db : Db) (b : PayoutBooks db) where
  -- A request that goes through is within the limits, takes its amount out of the withdrawable balances,
  -- and leaves a payout of that amount for the seller, which waits for review; the other payouts stay.
  pub request_withdrawal-Requested :
      Ends
        (λ _ db'. Requested seller amount db db')
        AnyError
        (request_withdrawal seller amount account db)
  unfolding request_withdrawal debit_available
  request_withdrawal-Requested =
      Ends-require P AnyError db (lookup seller db.wallets) _ _ (λ _. tt)
        (λ w wallet.
          Ends-guard P AnyError db (ltb w.available_balance amount) _ _ (λ _. tt)
            (λ enough.
              Ends-guard P AnyError db (ltb amount db.settings.min_withdrawal_amount) _ _ (λ _. tt)
                (λ low.
                  Ends-guard P AnyError db (ltb db.settings.max_withdrawal_amount amount) _ _
                    (λ _. tt)
                    (λ high.
                      Ends-require P AnyError db
                        (owned_account seller (lookup account db.bank_accounts)) _ _ (λ _. tt)
                        (λ bank _.
                          let covered : leb amount w.available_balance ≡ true = ground arith in
                          rw (wallet, covered, ◌>>◌, Ends)
                            (stored w bank wallet enough low high))))))
    where
      P : Unit {0} → Db → Type 0
      P _ db' = Requested seller amount db db'

      taken_wallets : List (ℕ × SellerWallet)
      taken_wallets = modify seller (take_available amount) db.wallets

      stored :
          (w : SellerWallet) (bank : SellerBankAccount)
          → lookup seller db.wallets ≡ some w
          → ltb w.available_balance amount ≡ false
          → ltb amount db.settings.min_withdrawal_amount ≡ false
          → ltb db.settings.max_withdrawal_amount amount ≡ false
          → Requested seller amount db
              (store_payout seller amount bank (record db { wallets = taken_wallets }))
      stored w bank wallet enough low high =
          let new = new_payout seller amount bank in
          let out =
            total-modify (λ (u : SellerWallet). u.available_balance) seller (take_available amount)
              w db.wallets wallet in
          record {
            above_minimum = ground arith;
            below_maximum = ground arith;
            debited = ground (arith, out);
            payout = new;
            stored = lookup-insert_self db.next_id new db.payouts;
            waits = refl;
            for_seller = (refl, refl);
            reviewed = record {
              books = record {
                payouts_valid =
                    Holds-insert IsValidPayout db.next_id new db.payouts
                      (record { referenced = refl; timed = refl }) b.payouts_valid;
                fresh = Below-insert db.next_id new db.payouts b.fresh;
              };
              follow = insert-Follow db.next_id new db.payouts b.fresh;
              money =
                  ground
                    (arith, out, total-insert_fresh outstanding db.next_id new db.payouts b.fresh);
            };
          }
