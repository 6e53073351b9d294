-- ===== src/Commission/Release/Conserves.antt =====
-- A release moves money inside wallets and creates none.
use drip_marketplace.Prelude.{
  ℕ, ◌≤◌, ◌≡◌, refl, ap, ◌∙◌, inl, inr, Bool, true, some, List, [], ◌∷◌, arith, ltb, Bool-cases,
  Option-cases,
}
use drip_marketplace.Db.{
  Db, ok, CommissionLedger, SellerWallet, Ends, Ends-bind, Never, lookup, total, total-modify,
  net_seller_amount,
}
use drip_marketplace.Commission.Debit.Wallet.{holdings}
use drip_marketplace.Commission.Release.{
  LedgerRow, move_to_available, released, is_held, release_one, release_rows, release_mature,
  mature,
}

-- The sum over all wallets of one column.
abbrev pub available_total : Db → ℕ
available_total db = total (λ (w : SellerWallet). w.available_balance) db.wallets

-- Money is only moved: the wallets hold what they held, none of it leaves the withdrawable balances,
-- and nothing but wallets, the log and the ledgers changes.
pub record Moves (db db' : Db) : Type 0 where
  pub conserved : total holdings db'.wallets ≡ total holdings db.wallets
  pub grows : available_total db ≤ available_total db'
  pub frame :
      db'
      ≡ record db { wallets = db'.wallets; transactions = db'.transactions; ledgers = db'.ledgers }

Moves-refl : (db : Db) → Moves db db
Moves-refl db = record { conserved = refl; grows = omega arith; frame = refl }

Moves-trans : (a b c : Db) → Moves a b → Moves b c → Moves a c
Moves-trans a b c p q = record {
  conserved = q.conserved ∙ p.conserved;
  grows = omega (arith, p.grows, q.grows);
  frame =
      q.frame
      ∙ ap
          (λ (d : Db). record d {
            wallets = c.wallets;
            transactions = c.transactions;
            ledgers = c.ledgers;
          })
          p.frame;
}

released-Moves :
    (now id : ℕ) (l : CommissionLedger) (w : SellerWallet) (db : Db)
    → lookup l.seller_id db.wallets ≡ some w
    → net_seller_amount l ≤ w.pending_balance
    → Moves db (released now id l w db)
released-Moves now id l w db found covered = elim (Bool-cases (ltb 0 (net_seller_amount l))) [
  | inl positive ↦ rw positive (record {
    conserved = omega (
      arith,
      total-modify holdings l.seller_id (move_to_available (net_seller_amount l)) w db.wallets
          found,
    );
    grows = omega (
      arith,
      total-modify (λ (x : SellerWallet). x.available_balance) l.seller_id
          (move_to_available (net_seller_amount l)) w db.wallets found,
    );
    frame = refl;
  })
  | inr nothing ↦ rw nothing (record { conserved = refl; grows = omega arith; frame = refl })
]

release_one-Moves :
    (now id : ℕ) (l : CommissionLedger) (db : Db)
    → Ends (λ _ db'. Moves db db') Never (release_one now id l db)
unfolding release_one
release_one-Moves now id l db = elim (Bool-cases (is_held id db)) [
  | inl held ↦ rw (held, Ends) (Moves-refl db)
  | inr free ↦ elim (Option-cases (lookup l.seller_id db.wallets)) [
    | inl absent ↦ rw (free, absent, Ends) (Moves-refl db)
    | inr (w, found) ↦ elim (Bool-cases (ltb w.pending_balance (net_seller_amount l))) [
      | inl short ↦ rw (free, found, short, Ends) (Moves-refl db)
      | inr covered ↦
          rw (free, found, covered, Ends) (released-Moves now id l w db found (ground arith))
    ]
  ]
]

release_rows-Moves :
    (now : ℕ) (rows : List LedgerRow) (db : Db)
    → Ends (λ _ db'. Moves db db') Never (release_rows now rows db)
unfolding release_rows
release_rows-Moves now [] db = Moves-refl db
release_rows-Moves now ((id, l) ∷ rows) db =
    Ends-bind (release_one now id l) (λ _ t. Moves db t) (λ _ db'. Moves db db') Never db _
      (release_one-Moves now id l db)
      (λ n t p.
        Ends-bind (release_rows now rows) (λ _ u. Moves t u) (λ _ db'. Moves db db') Never t _
          (release_rows-Moves now rows t) (λ m u q. Moves-trans db t u p q))

-- Whatever is mature and whatever is held, the sweep goes through; it moves money inside wallets from
-- held to withdrawable, so that their total is what it was, and touches only wallets, log and ledgers.
pub release_mature-Moves :
    (now : ℕ) (locked : ℕ → Bool) (db : Db)
    → Ends (λ _ db'. Moves db db') Never (release_mature now locked db)
unfolding release_mature
release_mature-Moves now locked db = release_rows-Moves now (mature now locked db) db

-- A ledger under an active return or dispute, or whose order is not delivered, is passed over.
pub release_one_held :
    (now id : ℕ) (l : CommissionLedger) (db : Db)
    → is_held id db ≡ true
    → release_one now id l db ≡ ok 0 db
unfolding release_one
release_one_held now id l db h = rw h refl
