-- ===== src/Commission/Settle/Entry.antt =====
-- The ledger entry of a settlement: it is written, offset by earlier refunds, and credited.
use mathlib.Core.Path.{subst}
use drip_marketplace.Prelude.{
  ℕ, ◌+◌, ◌≤◌, ◌<◌, ◌≡◌, refl, sym, not, ◌&&◌, ◌==◌, ==→eq, All, select, sum_of, if◌then◌else◌, inl,
  inr, true, false, none, some, List, [], ◌∷◌, arith, ltb, is_some, Bool-cases, Option-cases,
}
use drip_marketplace.Db.{
  Db, net_gross_amount, SellerOrder, CommissionLedger, Error, Ends, Never, lookup, lookup-insert,
  insert, total, total-modify, Holds-insert, net_seller_amount, net_commission_amount,
  not_found_wallet,
}
use drip_marketplace.Commission.Debit.Wallet.{holdings}
use drip_marketplace.Commission.Ledger.{rate_scale}
use drip_marketplace.Commission.Ledger.Reversal.{IsValidLedger, commission_on-le}
use drip_marketplace.Commission.Ledger.Charged.{Books}
use drip_marketplace.Commission.Settle.{
  AllocationRow, after_refresh, pending_for_order, refresh_refund_accounting, refresh_all,
  new_ledger, credited, credit_settlement,
}
use drip_marketplace.Commission.Settle.Loop.{SameTerms, Progress}
use drip_marketplace.Commission.Settle.Shares.{asked, IsCharged, IsDone, ChargesAll, AsksTooMuch}

pub refresh_all-frame :
    (now : ℕ) (ids : List ℕ) (db : Db)
    → Ends
        (λ _ db'. db' ≡ record db { accountings = db'.accountings })
        Never
        (refresh_all now ids db)
unfolding refresh_all refresh_refund_accounting
refresh_all-frame now [] db = refl
refresh_all-frame now (id ∷ ids) db = refresh_all-frame now ids (after_refresh now id db)

-- The credit: the wallets gain the ledger's net amount, or the seller has no wallet.
abbrev pub Credited : CommissionLedger → Db → Db → Type 0
Credited l db db' =
    (db' ≡ record db { wallets = db'.wallets; transactions = db'.transactions })
    × (total holdings db'.wallets ≡ total holdings db.wallets + net_seller_amount l)

-- The credit fails: something is to be credited, and the seller has no wallet.
abbrev pub HasNoWallet : CommissionLedger → Db → Error → Type 0
HasNoWallet l db e =
    (e ≡ not_found_wallet) × (lookup l.seller_id db.wallets ≡ none) × (0 < net_seller_amount l)

pub credit_settlement-Credited :
    (id : ℕ) (l : CommissionLedger) (db : Db)
    → lookup id db.ledgers ≡ some l
    → Ends (λ _ db'. Credited l db db') (HasNoWallet l db) (credit_settlement id db)
unfolding credit_settlement
credit_settlement-Credited id l db found = elim (Bool-cases (ltb 0 (net_seller_amount l))) [
  | inl positive ↦ elim (Option-cases (lookup l.seller_id db.wallets)) [
    | inl missing ↦ rw (found, positive, missing, Ends) (refl, missing, ground arith)
    | inr (w, wallet) ↦
        rw (found, positive, wallet, Ends)
          (
            refl,
            ground (
              arith,
              total-modify holdings l.seller_id
                  (credited (net_seller_amount l) (net_commission_amount l)) w db.wallets wallet,
            ),
          )
  ]
  | inr nothing ↦ rw (found, nothing, Ends) (refl, ground arith)
]

pub new_ledger-IsValidLedger :
    (now id rate : ℕ) (so : SellerOrder)
    → rate ≤ rate_scale
    → IsValidLedger (new_ledger now id so rate)
new_ledger-IsValidLedger now id rate so h = omega (arith, commission_on-le so.subtotal rate h)

-- A database in which the seller order's entry has just been written.
abbrev pub with_entry : ℕ → ℕ → SellerOrder → Db → Db
with_entry now id so db = record db {
  ledgers = insert id (new_ledger now id so db.settings.commission_rate) db.ledgers;
}

pub with_entry-Books :
    (now id : ℕ) (so : SellerOrder) (db : Db)
    → Books db
    → db.settings.commission_rate ≤ rate_scale
    → Books (with_entry now id so db)
with_entry-Books now id so db b h = record {
  ledgers_valid =
      Holds-insert IsValidLedger id (new_ledger now id so db.settings.commission_rate) db.ledgers
        (new_ledger-IsValidLedger now id db.settings.commission_rate so h) b.ledgers_valid;
  allocations_valid = b.allocations_valid;
}

-- What the refunds that were confirmed before the settlement ask of the seller order.
abbrev pub pending_total : ℕ → Db → ℕ
pending_total id db =
    sum_of (λ (row : AllocationRow). row.1.merchandise_amount) (pending_for_order id db)

-- The pending shares of a seller order ask of that one only.
pub asked_of_pending :
    (k id : ℕ) (rows : List AllocationRow)
    → asked k (select (λ row. row.1.seller_order_id == id && not (is_some row.1.applied_at)) rows)
      ≡ (if id == k
          then sum_of
              (λ (row : AllocationRow). row.1.merchandise_amount)
              (select (λ row. row.1.seller_order_id == id && not (is_some row.1.applied_at)) rows)
          else 0)
asked_of_pending k id [] = ground arith
asked_of_pending k id (row ∷ rows) =
    elim (Bool-cases (row.1.seller_order_id == id && not (is_some row.1.applied_at))) [
      | inr passed ↦ rw passed (asked_of_pending k id rows)
      | inl chosen ↦
          let same : row.1.seller_order_id ≡ id = ==→eq row.1.seller_order_id id (ground arith) in
          let waiting : is_some row.1.applied_at ≡ false = ground arith in
          rw (chosen, waiting, same) (ground (arith, asked_of_pending k id rows))
    ]

pub pending-IsCharged :
    (id : ℕ) (l : CommissionLedger) (rows : List AllocationRow) (d t : Db)
    → lookup id d.ledgers ≡ some l
    → All
        (IsDone d t)
        (select (λ row. row.1.seller_order_id == id && not (is_some row.1.applied_at)) rows)
    → All
        (λ (row : AllocationRow). IsCharged row.0 t)
        (select (λ row. row.1.seller_order_id == id && not (is_some row.1.applied_at)) rows)
pending-IsCharged id l [] d t found h = tt
pending-IsCharged id l (row ∷ rows) d t found h =
    elim (Bool-cases (row.1.seller_order_id == id && not (is_some row.1.applied_at))) [
      | inr passed ↦ rw passed (pending-IsCharged id l rows d t found (rw passed at h))
      | inl chosen ↦
          let done : All (IsDone d t) (
              row
              ∷ select (λ row. row.1.seller_order_id == id && not (is_some row.1.applied_at))
                  rows) =
            rw chosen at h in
          rw chosen (
            elim done.0 [
              | inl charged ↦ charged
              | inr otherwise ↦ elim otherwise [
                | inl before ↦ absurd (ground arith)
                | inr absent ↦ absurd (
                    ground (
                      arith,
                      found,
                      subst (λ j. lookup j d.ledgers ≡ none)
                          (==→eq row.1.seller_order_id id (ground arith)) absent,
                    ))
              ]
            ],
            pending-IsCharged id l rows d t found done.1,
          )
    ]

-- The entry after the offsets.
pub record OffsetEntry (now id : ℕ) (so : SellerOrder) (db t : Db) (l : CommissionLedger)
    : Type 0 where
  pub found : lookup id t.ledgers ≡ some l
  pub terms : SameTerms (new_ledger now id so db.settings.commission_rate) l
  pub offset : l.refunded_gross_amount ≡ pending_total id db
  pub fits : pending_total id db ≤ so.subtotal
  pub shares : All (λ (row : AllocationRow). IsCharged row.0 t) (pending_for_order id db)

pub offset_entry :
    (now id : ℕ) (so : SellerOrder) (db t : Db)
    → Progress true (with_entry now id so db) t
    → ChargesAll (pending_for_order id db) (with_entry now id so db) t
    → (l : CommissionLedger) × OffsetEntry now id so db t l
offset_entry now id so db t p c =
    let entry : CommissionLedger = new_ledger now id so db.settings.commission_rate in
    let there : lookup id (with_entry now id so db).ledgers ≡ some entry =
      ground (arith, lookup-insert id id entry db.ledgers) in
    let (l, found, same) = p.keeps id entry there in
    let (m, again, refunds) = c.ledgers id entry there in
    let eq : m ≡ l = ground (arith, found, again) in
    let asks : asked id (pending_for_order id db) ≡ pending_total id db =
      ground (arith, asked_of_pending id id db.allocations) in
    (
      l,
      record {
        found = found;
        terms = same;
        offset =
            subst (λ x. x.refunded_gross_amount ≡ pending_total id db) eq
              (omega (arith, refunds.refunded, asks));
        fits = omega (arith, refunds.fits, asks);
        shares =
            pending-IsCharged id entry db.allocations (with_entry now id so db) t there c.shares;
      },
    )

-- Too much is asked of the new entry, as the shares ask of no other.
pub excessive_entry :
    (now id : ℕ) (so : SellerOrder) (db : Db) (e : Error)
    → AsksTooMuch (pending_for_order id db) (with_entry now id so db) e
    → so.subtotal < pending_total id db
excessive_entry now id so db e f =
    let entry : CommissionLedger = new_ledger now id so db.settings.commission_rate in
    elim (Bool-cases (id == f.seller_order_id)) [
      | inr other ↦
          absurd
            (ground (arith, asked_of_pending f.seller_order_id id db.allocations, other, f.larger))
      | inl same ↦
          let eq : entry ≡ f.ledger =
            ground (arith, lookup-insert id f.seller_order_id entry db.ledgers, same, f.found) in
          let asks : asked f.seller_order_id (pending_for_order id db) ≡ pending_total id db =
            ground (arith, asked_of_pending f.seller_order_id id db.allocations, same) in
          omega (
            arith,
            asks,
            subst (λ x. net_gross_amount x < asked f.seller_order_id (pending_for_order id db))
                (sym eq) f.larger,
          )
    ]
