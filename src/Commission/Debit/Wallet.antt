-- ===== src/Commission/Debit/Wallet.antt =====
-- What a debit takes from the wallet.
use drip_marketplace.Prelude.{
  ℕ, ◌+◌, ◌≤◌, ◌≡◌, refl, Bool, true, false, arith, inl, inr, Option-cases,
}
use drip_marketplace.Db.{Db, SellerWallet, Reference, Ends, Never, lookup, total, total-modify}
use drip_marketplace.Commission.Debit.{debit_parts, take_parts, apply_debit}

-- The money in a wallet.
abbrev pub holdings : SellerWallet → ℕ
holdings w = w.pending_balance + w.available_balance

-- A debit within a wallet: never more than is asked, nor than each balance holds.
pub record WithinWallet (released : Bool) (debit : ℕ) (w : SellerWallet) (parts : ℕ × ℕ)
    : Type 0 where
  pub pending_within : parts.0 ≤ w.pending_balance
  pub available_within : parts.1 ≤ w.available_balance
  pub asked : parts.0 + parts.1 ≤ debit

pub debit_parts-WithinWallet :
    (released : Bool) (debit : ℕ) (w : SellerWallet)
    → WithinWallet released debit w (debit_parts released debit w)
unfolding debit_parts
debit_parts-WithinWallet released debit w = ground arith

-- The whole debit is recovered when the balances in scope cover it.
pub debit_parts_covered :
    (debit : ℕ) (w : SellerWallet)
    → (debit ≤ holdings w → (debit_parts false debit w).0 + (debit_parts false debit w).1 ≡ debit)
      × (debit ≤ w.available_balance → debit_parts true debit w ≡ (0, debit))
unfolding debit_parts
debit_parts_covered debit w = ground arith

-- The wallets and the transaction log are all that differs between two databases.
abbrev pub OnlyWallets : Db → Db → Type 0
OnlyWallets db db' = db' ≡ record db { wallets = db'.wallets; transactions = db'.transactions }

-- A debit never fails. It returns what it recovered, at most the debit, and takes exactly that out of
-- the wallets; nothing but wallets and the log changes.
abbrev pub Takes : ℕ → Db → ℕ → Db → Type 0
Takes debit db recovered db' =
    (recovered ≤ debit)
    × (total holdings db'.wallets + recovered ≡ total holdings db.wallets)
    × OnlyWallets db db'

pub apply_debit-Takes :
    (seller_id debit : ℕ) (reference : Reference) (so : ℕ) (released : Bool) (db : Db)
    → Ends (Takes debit db) Never (apply_debit seller_id debit reference so released db)
unfolding apply_debit
apply_debit-Takes seller_id debit reference so released db =
    elim (Option-cases (lookup seller_id db.wallets)) [
      | inl missing ↦ rw (missing, Ends) (omega arith, omega arith, refl)
      | inr (w, found) ↦
          let parts = debit_parts released debit w in
          rw (found, Ends)
            (
              ground (arith, debit_parts-WithinWallet released debit w),
              ground (
                arith,
                debit_parts-WithinWallet released debit w,
                total-modify holdings seller_id (take_parts parts) w db.wallets found,
              ),
              refl,
            )
    ]
