-- ===== src/Commission/Settle/Loop.antt =====
-- What charging a list of allocations does to the books: an invariant of the loop of `settle` and of
-- `reverse_for_refund`.
use drip_marketplace.Prelude.{
  ℕ, ◌≤◌, ◌≡◌, refl, sym, ap, ◌∙◌, inl, inr, Bool, true, some, arith, ◌==◌, Bool-cases,
}
use mathlib.Core.Path.{subst}
use drip_marketplace.Db.{
  Db, CommissionLedger, lookup, lookup-insert, insert, total, RefundAllocation,
}
use drip_marketplace.Commission.Debit.Wallet.{holdings}
use drip_marketplace.Commission.Ledger.{Charge, charge_ledger}
use drip_marketplace.Commission.Ledger.Charged.{Books, ChargedBy, ChargedBy-Books}

-- What a ledger keeps for life: the terms of its settlement.
pub record SameTerms (l l' : CommissionLedger) : Type 0 where
  pub seller_id : l'.seller_id ≡ l.seller_id
  pub gross_amount : l'.gross_amount ≡ l.gross_amount
  pub commission_rate : l'.commission_rate ≡ l.commission_rate
  pub commission_amount : l'.commission_amount ≡ l.commission_amount
  pub seller_amount : l'.seller_amount ≡ l.seller_amount
  pub released_at : l'.released_at ≡ l.released_at
  pub settled_at : l'.settled_at ≡ l.settled_at

SameTerms-refl : (l : CommissionLedger) → SameTerms l l
SameTerms-refl l = record {
  seller_id = refl;
  gross_amount = refl;
  commission_rate = refl;
  commission_amount = refl;
  seller_amount = refl;
  released_at = refl;
  settled_at = refl;
}

SameTerms-trans : (l m n : CommissionLedger) → SameTerms l m → SameTerms m n → SameTerms l n
SameTerms-trans l m n p q = record {
  seller_id = q.seller_id ∙ p.seller_id;
  gross_amount = q.gross_amount ∙ p.gross_amount;
  commission_rate = q.commission_rate ∙ p.commission_rate;
  commission_amount = q.commission_amount ∙ p.commission_amount;
  seller_amount = q.seller_amount ∙ p.seller_amount;
  released_at = q.released_at ∙ p.released_at;
  settled_at = q.settled_at ∙ p.settled_at;
}

-- Every ledger is still there, on the same terms.
abbrev pub KeepsLedgers : Db → Db → Type 0
KeepsLedgers db db' =
    (id : ℕ) (l : CommissionLedger)
    → lookup id db.ledgers ≡ some l
    → (l' : CommissionLedger) × (lookup id db'.ledgers ≡ some l') × SameTerms l l'

-- Charging touches four tables, keeps the books and the ledgers, and takes money out of wallets only;
-- before settlement not even that.
pub record Progress (offset : Bool) (db db' : Db) : Type 0 where
  pub books : Books db'
  pub frame : db' ≡ record db {
    wallets = db'.wallets;
    transactions = db'.transactions;
    ledgers = db'.ledgers;
    allocations = db'.allocations;
  }
  pub keeps : KeepsLedgers db db'
  pub taken : total holdings db'.wallets ≤ total holdings db.wallets
  pub by_offset : offset ≡ true → db'.wallets ≡ db.wallets

pub Progress-refl : (offset : Bool) (db : Db) → Books db → Progress offset db db
Progress-refl offset db b = record {
  books = b;
  frame = refl;
  keeps = λ id l found. (l, found, SameTerms-refl l);
  taken = omega arith;
  by_offset = λ _. refl;
}

pub Progress-trans :
    (offset : Bool) (a b c : Db) → Progress offset a b → Progress offset b c → Progress offset a c
Progress-trans offset a b c p q = record {
  books = q.books;
  frame =
      q.frame
      ∙ ap
          (λ (d : Db). record d {
            wallets = c.wallets;
            transactions = c.transactions;
            ledgers = c.ledgers;
            allocations = c.allocations;
          })
          p.frame;
  keeps = λ id l found.
      let (l₁, found₁, same₁) = p.keeps id l found in
      let (l₂, found₂, same₂) = q.keeps id l₁ found₁ in
      (l₂, found₂, SameTerms-trans l l₁ l₂ same₁ same₂);
  taken = omega (arith, p.taken, q.taken);
  by_offset = λ e. q.by_offset e ∙ p.by_offset e;
}

charge_ledger-SameTerms : (c : Charge) (l : CommissionLedger) → SameTerms l (charge_ledger c l)
charge_ledger-SameTerms c l = record {
  seller_id = refl;
  gross_amount = refl;
  commission_rate = refl;
  commission_amount = refl;
  seller_amount = refl;
  released_at = refl;
  settled_at = refl;
}

insert-KeepsLedger :
    (k so : ℕ) (c : Charge) (l m : CommissionLedger) (db db' : Db)
    → lookup so db.ledgers ≡ some l
    → db'.ledgers ≡ insert so (charge_ledger c l) db.ledgers
    → lookup k db.ledgers ≡ some m
    → (l' : CommissionLedger) × (lookup k db'.ledgers ≡ some l') × SameTerms m l'
insert-KeepsLedger k so c l m db db' found e found' = elim (Bool-cases (so == k)) [
  | inl same ↦
      let m-eq-l : l ≡ m = ground arith in
      (
        charge_ledger c l,
        rw (e, lookup-insert, same) refl,
        subst (λ x. SameTerms x (charge_ledger c l)) m-eq-l (charge_ledger-SameTerms c l),
      )
  | inr other ↦ (m, rw (e, lookup-insert, other) found', SameTerms-refl m)
]

pub ChargedBy-Progress :
    (now : ℕ) (offset : Bool) (id : ℕ) (a : RefundAllocation) (l : CommissionLedger) (c : Charge)
    (db db' : Db)
    → Books db
    → lookup a.seller_order_id db.ledgers ≡ some l
    → ChargedBy now offset id a l c db db'
    → Progress offset db db'
ChargedBy-Progress now offset id a l c db db' b found h = record {
  books = ChargedBy-Books now offset id a l c db db' b found h;
  frame =
      h.books
      ∙ ap
          (λ (d : Db). record db {
            wallets = db'.wallets;
            transactions = db'.transactions;
            ledgers = d.ledgers;
            allocations = d.allocations;
          })
          (sym h.books);
  keeps = λ k m found'.
      insert-KeepsLedger k a.seller_order_id c l m db db' found (ap (λ (d : Db). d.ledgers) h.books)
        found';
  taken = omega (arith, h.money);
  by_offset = λ e. (h.by_offset e).2;
}
