-- ===== src/Commission/Settle/Every.antt =====
-- The settlement of a list of seller orders in turn, as the services do it (`for ... settle(...)`).
use drip_marketplace.Prelude.{
  ℕ, ◌≤◌, ◌≡◌, refl, ◌∙◌, inl, inr, true, List, [], ◌∷◌, ap, is_some, All,
}
use drip_marketplace.Db.{Tx, pure, ◌>>◌, Db, Ends, Ends-then, Ends-weaken, lookup}
use drip_marketplace.Commission.Ledger.{rate_scale}
use drip_marketplace.Commission.Ledger.Charged.{Books}
use drip_marketplace.Commission.Refund.Allocated.{AnyError}
use drip_marketplace.Commission.Settle.{settle}
use drip_marketplace.Commission.Settle.Once.{SettleEnds, SettleFails, settle-Settles}

unfoldable pub settle_every : ℕ → List ℕ → Tx (Unit {0})
settle_every now [] = pure tt
settle_every now (id ∷ ids) = do settle now id; settle_every now ids

abbrev pub HasEntry : Db → ℕ → Type 0
HasEntry db id = is_some (lookup id db.ledgers) ≡ true

-- Settlements keep the books, the orders and the payments, and leave the entries that were there.
pub record Kept (db db' : Db) : Type 0 where
  pub books : Books db'
  pub payments_kept : db'.payments ≡ db.payments
  pub orders_kept : db'.orders ≡ db.orders
  pub seller_orders_kept : db'.seller_orders ≡ db.seller_orders
  pub settings_kept : db'.settings ≡ db.settings
  pub still_settled : (k : ℕ) → HasEntry db k → HasEntry db' k

Kept-refl : (db : Db) → Books db → Kept db db
Kept-refl db b = record {
  books = b;
  payments_kept = refl;
  orders_kept = refl;
  seller_orders_kept = refl;
  settings_kept = refl;
  still_settled = λ k h. h;
}

Kept-trans : (d e f : Db) → Kept d e → Kept e f → Kept d f
Kept-trans d e f p q = record {
  books = q.books;
  payments_kept = q.payments_kept ∙ p.payments_kept;
  orders_kept = q.orders_kept ∙ p.orders_kept;
  seller_orders_kept = q.seller_orders_kept ∙ p.seller_orders_kept;
  settings_kept = q.settings_kept ∙ p.settings_kept;
  still_settled = λ k h. q.still_settled k (p.still_settled k h);
}

SettleEnds-Kept :
    (now id : ℕ) (db db' : Db) → Books db → SettleEnds now id db db' → Kept db db' × HasEntry db' id
SettleEnds-Kept now id db db' b (inl (so, l, _, found, same)) =
    rw same (Kept-refl db b, ap is_some found)
SettleEnds-Kept now id db db' b (inr (so, _, _, _, _, s)) = (
  record {
    books = s.books;
    payments_kept = s.payments_kept;
    orders_kept = s.orders_kept;
    seller_orders_kept = s.seller_orders_kept;
    settings_kept = s.settings_kept;
    still_settled = s.still_settled;
  },
  ap is_some s.found,
)

-- When the loop goes through, every seller order of the list has its entry.
pub settle_every-Kept :
    (now : ℕ) (ids : List ℕ) (db : Db)
    → Books db
    → db.settings.commission_rate ≤ rate_scale
    → Ends (λ _ db'. Kept db db' × All (HasEntry db') ids) AnyError (settle_every now ids db)
unfolding settle_every
settle_every-Kept now [] db b h = (Kept-refl db b, tt)
settle_every-Kept now (id ∷ ids) db b h =
    Ends-then (settle now id) (λ _ t. Kept db t × HasEntry t id)
      (λ _ db'. Kept db db' × All (HasEntry db') (id ∷ ids)) AnyError db (settle_every now ids)
      (Ends-weaken (λ _ t. SettleEnds now id db t) (λ _ t. Kept db t × HasEntry t id)
        (SettleFails now id db) AnyError (settle now id db) (settle-Settles now id db b h)
        (λ _ t s. SettleEnds-Kept now id db t b s) (λ _ _. tt))
      (λ _ t k.
        Ends-weaken (λ _ db'. Kept t db' × All (HasEntry db') ids)
          (λ _ db'. Kept db db' × All (HasEntry db') (id ∷ ids)) AnyError AnyError
          (settle_every now ids t) (settle_every-Kept now ids t k.0.books (rw k.0.settings_kept h))
          (λ _ db' later.
            (Kept-trans db t db' k.0 later.0, (later.0.still_settled id k.1, later.1)))
          (λ _ _. tt))
