-- ===== src/Returns/Steps.antt =====
-- The life of a return: what an operation may do to it, and the books that every operation keeps.
use mathlib.Core.Path.{subst}
use drip_marketplace.Prelude.{
  ℕ, ◌≤◌, ◌≡◌, refl, sym, ap, ◌∙◌, ◌⊎◌, inl, inr, true, false, Option, none, some, List, arith,
  ◌==◌, Bool-cases, ==→eq,
}
use drip_marketplace.Db.{
  Db, Return, ReturnStatus, Dispute, ItemId, Holds, Holds-modify, lookup, lookup-modify,
  lookup-modify_self, modify, Below, Below-modify, HasDistinctKeys, HasDistinctKeys-modify,
}
use drip_marketplace.Commission.Ledger.Charged.{Books}
use drip_marketplace.Commission.Settle.Once.{Books-tables}
use drip_marketplace.Returns.{ReturnRow, update_return}
use drip_marketplace.Returns.Request.{claim_of, claimed, has_repeated_item, find_item}
use drip_marketplace.Returns.Disputes.{is_settled}
use drip_marketplace.Returns.Claims.{purchased, claimed-modify}

-- The steps of a return's status.
pub data Step : ReturnStatus → ReturnStatus → Type 0 where
  approve : Step ReturnStatus.requested ReturnStatus.approved
  reject : Step ReturnStatus.requested ReturnStatus.rejected
  receive : Step ReturnStatus.approved ReturnStatus.received
  overturn : Step ReturnStatus.rejected ReturnStatus.approved
  pay_back : Step ReturnStatus.received ReturnStatus.refunded

-- The abstract view of the returns: the status of each.
abbrev pub View : Type 0
View = ℕ → Option ReturnStatus

abbrev pub status_in : Option Return → Option ReturnStatus
status_in none = none
status_in (some r) = some r.status

abbrev pub view : Db → View
view db id = status_in (lookup id db.returns)

-- The moves of the abstract machine: nothing, a new request, or one step of one return.
pub data Move (v w : View) : Type 0 where
  idle : ((k : ℕ) → w k ≡ v k) → Move v w
  file :
      (n : ℕ)
      → v n ≡ none
      → w n ≡ some ReturnStatus.requested
      → ((k : ℕ) → (n == k) ≡ false → w k ≡ v k)
      → Move v w
  decide :
      (n : ℕ) (s t : ReturnStatus)
      → Step s t
      → v n ≡ some s
      → w n ≡ some t
      → ((k : ℕ) → (n == k) ≡ false → w k ≡ v k)
      → Move v w

-- A move depends on the statuses only.
pub Move-like : (v w u : View) → Move v w → ((k : ℕ) → u k ≡ w k) → Move v u
Move-like v w u (Move.idle same) e = Move.idle (λ k. e k ∙ same k)
Move-like v w u (Move.file n fresh made others) e =
    Move.file n fresh (e n ∙ made) (λ k h. e k ∙ others k h)
Move-like v w u (Move.decide n s t st old new others) e =
    Move.decide n s t st old (e n ∙ new) (λ k h. e k ∙ others k h)

-- A dispute that has been settled is there for good.
abbrev pub KeepsSettled : Return → Return → Type 0
KeepsSettled p q =
    (d : Dispute) → p.dispute ≡ some d → is_settled d.status ≡ true → q.dispute ≡ some d

-- What one operation may do to a return.
pub record Follows (p q : Return) : Type 0 where
  pub order_id : q.order_id ≡ p.order_id
  pub seller_order_id : q.seller_order_id ≡ p.seller_order_id
  pub user_id : q.user_id ≡ p.user_id
  pub items : q.items ≡ p.items
  pub step : (q.status ≡ p.status) ⊎ Step p.status q.status
  pub dispute : KeepsSettled p q

pub Follows-refl : (p : Return) → Follows p p
Follows-refl p = record {
  order_id = refl;
  seller_order_id = refl;
  user_id = refl;
  items = refl;
  step = inl refl;
  dispute = λ d e h. e;
}

abbrev pub Follow : List ReturnRow → List ReturnRow → Type 0
Follow t u =
    (id : ℕ) (p : Return)
    → lookup id t ≡ some p
    → (q : Return) × (lookup id u ≡ some q) × Follows p q

-- No item of an order is claimed more often than it was bought.
abbrev pub IsWithin : Db → Type 0
IsWithin db = (id : ItemId) → claimed id none db.returns ≤ purchased id db

pub record ReturnBooks (db : Db) : Type 0 where
  pub fresh : Below db.next_id db.returns
  pub distinct : HasDistinctKeys db.returns
  pub items_distinct : Holds (λ r. has_repeated_item r.items ≡ false) db.returns
  pub within : IsWithin db

-- What an operation on returns does; the books of the sellers stay valid.
pub record Handled (db db' : Db) : Type 0 where
  pub books : ReturnBooks db'
  pub follow : Follow db.returns db'.returns
  pub move : Move (view db) (view db')
  pub orders : db'.orders ≡ db.orders
  pub accounts : Books db → Books db'

pub Handled-refl : (db : Db) → ReturnBooks db → Handled db db
Handled-refl db b = record {
  books = b;
  follow = λ id p found. (p, found, Follows-refl p);
  move = Move.idle (λ k. refl);
  orders = refl;
  accounts = λ a. a;
}

-- One return changes.
module _ (id : ℕ) (f : Return → Return) (p : Return) (db : Db)
    (found : lookup id db.returns ≡ some p) where
  the_same : (q : Return) → lookup id db.returns ≡ some q → p ≡ q
  the_same q e = ground arith

  modify-Follow : Follows p (f p) → Follow db.returns (modify id f db.returns)
  modify-Follow h j q e = elim (Bool-cases (id == j)) [
    | inl same ↦
        let id-eq : id ≡ j = ==→eq id j same in
        let eq : p ≡ q = the_same q (subst (λ k. lookup k db.returns ≡ some q) (sym id-eq) e) in
        (f p, ground (arith, lookup-modify id j f db.returns), subst (λ x. Follows x (f p)) eq h)
    | inr other ↦ (q, ground (arith, lookup-modify id j f db.returns), Follows-refl q)
  ]

  view_other : (k : ℕ) → (id == k) ≡ false → view (update_return id f db) k ≡ view db k
  view_other k other = ap status_in (ground (arith, lookup-modify id k f db.returns))

  view_self : view (update_return id f db) id ≡ some (f p).status
  view_self = ap status_in (lookup-modify_self id f p db.returns found)

  modify-Move :
      ((f p).status ≡ p.status) ⊎ Step p.status (f p).status
      → Move (view db) (view (update_return id f db))
  modify-Move (inl same) = Move.idle (λ k. elim (Bool-cases (id == k)) [
    | inl here ↦
        subst (λ j. view (update_return id f db) j ≡ view db j) (==→eq id k here)
          (view_self ∙ ap some same ∙ sym (ap status_in found))
    | inr other ↦ view_other k other
  ])
  modify-Move (inr st) =
      Move.decide id p.status (f p).status st (ap status_in found) view_self view_other

  -- The books are kept when the items stay and the claims still fit.
  pub update_return-Books :
      ReturnBooks db
      → (f p).items ≡ p.items
      → ((i : ItemId) → claimed i none (modify id f db.returns) ≤ purchased i db)
      → ReturnBooks (update_return id f db)
  unfolding find_item
  update_return-Books b kept fits = record {
    fresh = Below-modify db.next_id id f db.returns b.fresh;
    distinct = HasDistinctKeys-modify id f db.returns b.distinct;
    items_distinct =
        Holds-modify (λ r. has_repeated_item r.items ≡ false) id f db.returns
          (λ r there d.
            subst (λ x. has_repeated_item (f x).items ≡ false) (the_same r there)
              (rw kept (subst (λ x. has_repeated_item x.items ≡ false) (sym (the_same r there)) d)))
          b.items_distinct;
    within = fits;
  }

  pub update_return-Handled :
      ReturnBooks db
      → Follows p (f p)
      → ((i : ItemId) → claimed i none (modify id f db.returns) ≤ purchased i db)
      → Handled db (update_return id f db)
  update_return-Handled b h fits = record {
    books = update_return-Books b h.items fits;
    follow = modify-Follow h;
    move = modify-Move h.step;
    orders = refl;
    accounts = λ a. Books-tables db (update_return id f db) a refl refl;
  }

  -- So they are when the return claims no more than before.
  pub update_return-less :
      ReturnBooks db
      → Follows p (f p)
      → ((i : ItemId) → claim_of i (f p) ≤ claim_of i p)
      → Handled db (update_return id f db)
  update_return-less b h less =
      update_return-Handled b h
        (λ i. omega (arith, claimed-modify i id f p db.returns found, less i, b.within i))
