-- ===== src/Commission/Settle/Once.antt =====
-- Settlement happens once, keeps the books, and credits exactly the net amount of the ledger entry.
use drip_marketplace.Prelude.{
  ℕ, ◌+◌, ◌≤◌, ◌<◌, ◌≡◌, refl, All, ap, ◌∙◌, ◌⊎◌, inl, inr, true, false, none, some, List, arith,
  map, is_some, Bool-cases, Option-cases,
}
use drip_marketplace.Db.{
  Db, SellerWallet, ok, err, ◌>>=◌, ◌>>◌, SellerOrder, CommissionLedger, Error, Ends, Ends-then,
  Ends-weaken, Never, lookup, lookup-insert, total, net_seller_amount, allocation_exceeds_gross,
  not_found_seller_order, not_found_wallet, only_delivered_settled, funds_not_collected,
}
use drip_marketplace.Commission.Debit.Wallet.{holdings}
use drip_marketplace.Commission.Ledger.{rate_scale}
use drip_marketplace.Commission.Ledger.Charged.{Books}
use drip_marketplace.Commission.Settle.{
  AllocationRow, apply_all, pending_for_order, refresh_all, new_ledger, credit_settlement,
  is_delivered, is_collected, settle_new, settle,
}
use drip_marketplace.Commission.Settle.Loop.{SameTerms, Progress}
use drip_marketplace.Commission.Settle.Charging.{apply_all-ChargesAll}
use drip_marketplace.Commission.Settle.Shares.{IsCharged, ChargesAll, AsksTooMuch}
use drip_marketplace.Commission.Settle.Entry.{
  refresh_all-frame, Credited, HasNoWallet, credit_settlement-Credited, with_entry,
  with_entry-Books, pending_total, OffsetEntry, offset_entry, excessive_entry,
}

-- A fresh settlement: the books are valid, the entry has the terms of the seller order and of the rate
-- in force and offsets all refunds that were confirmed before, each share of which is charged, and the wallets
-- have gained exactly what the entry leaves the seller.
pub record Settled (now id : ℕ) (so : SellerOrder) (db db' : Db) : Type 0 where
  pub entry : CommissionLedger
  pub books : Books db'
  pub found : lookup id db'.ledgers ≡ some entry
  pub terms : SameTerms (new_ledger now id so db.settings.commission_rate) entry
  pub offset : entry.refunded_gross_amount ≡ pending_total id db
  pub fits : pending_total id db ≤ so.subtotal
  pub shares : All (λ (row : AllocationRow). IsCharged row.0 db') (pending_for_order id db)
  pub credit : total holdings db'.wallets ≡ total holdings db.wallets + net_seller_amount entry
  pub seller_orders_kept : db'.seller_orders ≡ db.seller_orders
  pub orders_kept : db'.orders ≡ db.orders
  pub payments_kept : db'.payments ≡ db.payments
  pub settings_kept : db'.settings ≡ db.settings
  pub still_settled :
      (k : ℕ) → is_some (lookup k db.ledgers) ≡ true → is_some (lookup k db'.ledgers) ≡ true

-- A seller order that is to be settled now.
pub record IsPayable (id : ℕ) (so : SellerOrder) (db : Db) : Type 0 where
  pub found : lookup id db.seller_orders ≡ some so
  pub fresh : lookup id db.ledgers ≡ none
  pub delivered : is_delivered so.status ≡ true
  pub collected : is_collected (lookup so.order_id db.payments) ≡ true

-- The exceptions of `settle`, each with its cause.
pub data SettleFails (now id : ℕ) (db : Db) (e : Error) : Type 0 where
  missing : lookup id db.seller_orders ≡ none → e ≡ not_found_seller_order → SettleFails now id db e
  undelivered :
      (so : SellerOrder)
      → lookup id db.seller_orders ≡ some so
      → lookup id db.ledgers ≡ none
      → is_delivered so.status ≡ false
      → e ≡ only_delivered_settled
      → SettleFails now id db e
  uncollected :
      (so : SellerOrder)
      → lookup id db.seller_orders ≡ some so
      → lookup id db.ledgers ≡ none
      → is_delivered so.status ≡ true
      → is_collected (lookup so.order_id db.payments) ≡ false
      → e ≡ funds_not_collected
      → SettleFails now id db e
  excessive :
      (so : SellerOrder)
      → IsPayable id so db
      → so.subtotal < pending_total id db
      → e ≡ allocation_exceeds_gross
      → SettleFails now id db e
  no_wallet :
      (so : SellerOrder)
      → IsPayable id so db
      → pending_total id db ≤ so.subtotal
      → lookup so.seller_id db.wallets ≡ none
      → (entry : CommissionLedger)
      → SameTerms (new_ledger now id so db.settings.commission_rate) entry
      → entry.refunded_gross_amount ≡ pending_total id db
      → 0 < net_seller_amount entry
      → e ≡ not_found_wallet
      → SettleFails now id db e

-- The books depend on two tables only.
pub Books-tables :
    (d e : Db) → Books d → e.ledgers ≡ d.ledgers → e.allocations ≡ d.allocations → Books e
Books-tables d e b p q = record {
  ledgers_valid = rw p b.ledgers_valid;
  allocations_valid = rw q b.allocations_valid;
}

ledgers_path :
    (t u v : Db)
    → u ≡ record t { wallets = u.wallets; transactions = u.transactions }
    → v ≡ record u { accountings = v.accountings }
    → v.ledgers ≡ t.ledgers
ledgers_path t u v p q = ap (λ (d : Db). d.ledgers) q ∙ ap (λ (d : Db). d.ledgers) p

still_there :
    (now id : ℕ) (so : SellerOrder) (db t : Db)
    → Progress true (with_entry now id so db) t
    → (k : ℕ) → is_some (lookup k db.ledgers) ≡ true
    → is_some (lookup k t.ledgers) ≡ true
still_there now id so db t p k settled =
    let entry : CommissionLedger = new_ledger now id so db.settings.commission_rate in
    elim (Option-cases (lookup k (with_entry now id so db).ledgers)) [
      | inl gone ↦ absurd (ground (arith, lookup-insert id k entry db.ledgers))
      | inr (l, found) ↦ let (_, kept, _) = p.keeps k l found in ap is_some kept
    ]

module _ (now id : ℕ) (so : SellerOrder) (db : Db) (pay : IsPayable id so db) where
  finish_settlement :
      (ids : List ℕ) (t : Db) (l : CommissionLedger)
      → Progress true (with_entry now id so db) t
      → OffsetEntry now id so db t l
      → Ends
          (λ _ db'. Settled now id so db db')
          (SettleFails now id db)
          ((credit_settlement id >> refresh_all now ids) t)
  finish_settlement ids t l p o =
      Ends-then (credit_settlement id) (λ _ u. Credited l t u) (λ _ db'. Settled now id so db db')
        (SettleFails now id db) t (refresh_all now ids)
        (Ends-weaken (λ _ u. Credited l t u) (λ _ u. Credited l t u) (HasNoWallet l t)
          (SettleFails now id db) (credit_settlement id t)
          (credit_settlement-Credited id l t o.found) (λ _ u h. h)
          (λ e h.
            SettleFails.no_wallet so pay o.fits
              (rw
                (
                  ap (λ (w : List (ℕ × SellerWallet)). lookup l.seller_id w) (p.by_offset refl),
                  o.terms.seller_id,
                )
                at h.1)
              l o.terms o.offset h.2 h.0))
        (λ _ u c.
          Ends-weaken (λ _ v. v ≡ record u { accountings = v.accountings })
            (λ _ db'. Settled now id so db db') Never (SettleFails now id db)
            (refresh_all now ids u) (refresh_all-frame now ids u)
            (λ _ v f. record {
              entry = l;
              books =
                  Books-tables t v p.books (ledgers_path t u v c.0 f)
                    (ap (λ (d : Db). d.allocations) f ∙ ap (λ (d : Db). d.allocations) c.0);
              found = rw (ledgers_path t u v c.0 f) o.found;
              terms = o.terms;
              offset = o.offset;
              fits = o.fits;
              shares =
                  rw (ap (λ (d : Db). d.allocations) f ∙ ap (λ (d : Db). d.allocations) c.0)
                    o.shares;
              credit =
                  rw (ap (λ (d : Db). d.wallets) f)
                    (omega (arith, c.1, ap (total holdings) (p.by_offset refl)));
              seller_orders_kept =
                  ap (λ (d : Db). d.seller_orders) f
                  ∙ ap (λ (d : Db). d.seller_orders) c.0
                  ∙ ap (λ (d : Db). d.seller_orders) p.frame;
              orders_kept =
                  ap (λ (d : Db). d.orders) f
                  ∙ ap (λ (d : Db). d.orders) c.0
                  ∙ ap (λ (d : Db). d.orders) p.frame;
              payments_kept =
                  ap (λ (d : Db). d.payments) f
                  ∙ ap (λ (d : Db). d.payments) c.0
                  ∙ ap (λ (d : Db). d.payments) p.frame;
              settings_kept =
                  ap (λ (d : Db). d.settings) f
                  ∙ ap (λ (d : Db). d.settings) c.0
                  ∙ ap (λ (d : Db). d.settings) p.frame;
              still_settled = λ k settled.
                  rw (ledgers_path t u v c.0 f) (still_there now id so db t p k settled);
            })
            (λ e h. absurd h))

  settle_new-Settled :
      Books db
      → db.settings.commission_rate ≤ rate_scale
      → Ends (λ _ db'. Settled now id so db db') (SettleFails now id db) (settle_new now id so db)
  unfolding settle_new
  settle_new-Settled b h =
      let rows = pending_for_order id db in
      rw (pay.delivered, pay.collected, ◌>>◌, Ends)
        (Ends-then (apply_all now true rows)
          (λ _ t.
            Progress true (with_entry now id so db) t × ChargesAll rows (with_entry now id so db) t)
          (λ _ db'. Settled now id so db db') (SettleFails now id db) (with_entry now id so db)
          (credit_settlement id
            >> refresh_all now (map (λ (row : AllocationRow). row.1.refund_id) rows))
          (Ends-weaken
            (λ _ t.
              Progress true (with_entry now id so db) t
              × ChargesAll rows (with_entry now id so db) t)
            (λ _ t.
              Progress true (with_entry now id so db) t
              × ChargesAll rows (with_entry now id so db) t)
            (AsksTooMuch rows (with_entry now id so db)) (SettleFails now id db)
            (apply_all now true rows (with_entry now id so db))
            (apply_all-ChargesAll now true rows (with_entry now id so db)
              (with_entry-Books now id so db b h))
            (λ _ t p. p)
            (λ e f. SettleFails.excessive so pay (excessive_entry now id so db e f) f.raised))
          (λ _ t p.
            let (l, o) = offset_entry now id so db t p.0 p.1 in
            finish_settlement (map (λ (row : AllocationRow). row.1.refund_id) rows) t l p.0 o))

-- How a settlement ends well: it was made before and nothing changes, or it is made now, for a seller
-- order that is delivered and paid.
abbrev pub SettleEnds : ℕ → ℕ → Db → Db → Type 0
SettleEnds now id db db' =
    ((so : SellerOrder) × (l : CommissionLedger) × (lookup id db.seller_orders ≡ some so)
      × (lookup id db.ledgers ≡ some l)
      × (db' ≡ db))
    ⊎ ((so : SellerOrder) × (lookup id db.ledgers ≡ none)
        × (lookup id db.seller_orders ≡ some so)
        × (is_delivered so.status ≡ true)
        × (is_collected (lookup so.order_id db.payments) ≡ true)
        × Settled now id so db db')

settle_new-Settles :
    (now id : ℕ) (so : SellerOrder) (db : Db)
    → Books db
    → db.settings.commission_rate ≤ rate_scale
    → lookup id db.ledgers ≡ none
    → lookup id db.seller_orders ≡ some so
    → Ends (λ _ db'. SettleEnds now id db db') (SettleFails now id db) (settle_new now id so db)
unfolding settle_new
settle_new-Settles now id so db b h fresh found = elim (Bool-cases (is_delivered so.status)) [
  | inr early ↦ rw (early, Ends) (SettleFails.undelivered so found fresh early refl)
  | inl delivered ↦ elim (Bool-cases (is_collected (lookup so.order_id db.payments))) [
    | inr unpaid ↦
        rw (delivered, ◌>>◌, ◌>>=◌, unpaid, Ends)
          (SettleFails.uncollected so found fresh delivered unpaid refl)
    | inl collected ↦
        let pay : IsPayable id so db = record {
          found = found;
          fresh = fresh;
          delivered = delivered;
          collected = collected;
        } in
        Ends-weaken (λ _ db'. Settled now id so db db') (λ _ db'. SettleEnds now id db db')
          (SettleFails now id db) (SettleFails now id db) (settle_new now id so db)
          (settle_new-Settled now id so db pay b h)
          (λ _ db' s. inr (so, fresh, found, delivered, collected, s)) (λ e f. f)
  ]
]

settle_settled :
    (now id : ℕ) (so : SellerOrder) (l : CommissionLedger) (db : Db)
    → lookup id db.seller_orders ≡ some so
    → lookup id db.ledgers ≡ some l
    → settle now id db ≡ ok tt db
unfolding settle
settle_settled now id so l db found settled = rw (found, ◌>>=◌, settled) refl

settle_missing :
    (now id : ℕ) (db : Db)
    → lookup id db.seller_orders ≡ none
    → settle now id db ≡ err not_found_seller_order
unfolding settle
settle_missing now id db absent = rw absent refl

settle_fresh :
    (now id : ℕ) (so : SellerOrder) (db : Db)
    → lookup id db.seller_orders ≡ some so
    → lookup id db.ledgers ≡ none
    → settle now id db ≡ settle_new now id so db
unfolding settle
settle_fresh now id so db found fresh = rw (found, ◌>>=◌, fresh) refl

pub settle-Settles :
    (now id : ℕ) (db : Db)
    → Books db
    → db.settings.commission_rate ≤ rate_scale
    → Ends (λ _ db'. SettleEnds now id db db') (SettleFails now id db) (settle now id db)
settle-Settles now id db b h = elim (Option-cases (lookup id db.seller_orders)) [
  | inl none_there ↦ rw (settle_missing now id db none_there) (SettleFails.missing none_there refl)
  | inr (so, found) ↦ elim (Option-cases (lookup id db.ledgers)) [
    | inr (l, settled) ↦
        rw (settle_settled now id so l db found settled) (inl (so, l, found, settled, refl))
    | inl fresh ↦
        rw (settle_fresh now id so db found fresh) (settle_new-Settles now id so db b h fresh found)
  ]
]

-- Settling a second time, at any time, changes nothing.
pub settle_twice :
    (now later id : ℕ) (db : Db)
    → Books db
    → db.settings.commission_rate ≤ rate_scale
    → Ends (λ _ db'. settle later id db' ≡ ok tt db') (SettleFails now id db) (settle now id db)
settle_twice now later id db b h =
    Ends-weaken (λ _ db'. SettleEnds now id db db') (λ _ db'. settle later id db' ≡ ok tt db')
      (SettleFails now id db) (SettleFails now id db) (settle now id db)
      (settle-Settles now id db b h) again (λ e f. f)
  where
    again : (u : Unit {0}) (db' : Db) → SettleEnds now id db db' → settle later id db' ≡ ok tt db'
    again _ db' (inl (so, l, found, settled, same)) =
        rw same (settle_settled later id so l db found settled)
    again _ db' (inr (so, _, found, _, _, s)) =
        settle_settled later id so s.entry db' (rw s.seller_orders_kept found) s.found
