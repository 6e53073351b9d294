-- ===== src/Returns/Disputed.antt =====
-- Disputes keep the books; only a customer-favour resolution makes a rejected return active again, and
-- then its quantities fit.
use mathlib.Core.Path.{subst}
use drip_marketplace.Prelude.{
  ℕ, ◌≡◌, refl, sym, ap, ◌∙◌, inl, inr, Option-cases, Bool, true, false, not, Option, none, some,
  arith, length, ltb, ◌==◌, ==→eq, is_some, if◌then◌else◌, Bool-cases, All,
}
use drip_marketplace.Db.{
  Db, Text, Return, ReturnStatus, ItemId, Dispute, DisputeStatus, Ends, Ends-then, Ends-guard,
  Ends-require, lookup, lookup-modify, lookup-modify_self, modify, pure,
}
use drip_marketplace.Texts.{strip, is_blank}
use drip_marketplace.Commission.Refund.Allocated.{AnyError}
use drip_marketplace.Returns.{has_status, of_customer, customer_return, with_status, update_return}
use drip_marketplace.Returns.Request.{claim_of, claimed, validate_return_quantities}
use drip_marketplace.Returns.Claims.{
  FitsItem, claimed-modify, claimed_split, validate_return_quantities-Fits, fits_together,
}
use drip_marketplace.Returns.Disputes.{
  is_settled, new_dispute, with_dispute, open_dispute, with_message, add_message, DisputeReview,
  is_other_dispute, find_dispute, under_review, add_admin_message, reactivate, resolve_for_customer,
  resolved, resolve_dispute,
}
use drip_marketplace.Commission.Settle.Once.{Books-tables}
use drip_marketplace.Returns.Steps.{
  Move-like, view, status_in, Step, Follows, ReturnBooks, Handled, Handled-refl, Follow,
  update_return-Books, update_return-Handled,
}
use drip_marketplace.Returns.Decided.{status_of}

of_customer_found :
    (user : ℕ) (r : Return) (row : Option Return) → of_customer user row ≡ some r → row ≡ some r
of_customer_found user r none e = absurd (ground arith)
of_customer_found user r (some q) e = ground arith

-- The claims stay when a dispute changes.
same_claims :
    (i : ItemId) (id : ℕ) (d : Dispute) (q : Return) (t : Db)
    → lookup id t.returns ≡ some q
    → claimed i none (modify id (with_dispute d) t.returns) ≡ claimed i none t.returns
same_claims i id d q t found = omega (arith, claimed-modify i id (with_dispute d) q t.returns found)

module _ (id : ℕ) (db : Db) (r : Return) (found : lookup id db.returns ≡ some r)
    (unsettled : (old : Dispute) → r.dispute ≡ some old → is_settled old.status ≡ false)
    (d : Dispute) where
  dispute-Follows : (q : Return) → Follows r q → Follows r (with_dispute d q)
  dispute-Follows q f = record {
    order_id = f.order_id;
    seller_order_id = f.seller_order_id;
    user_id = f.user_id;
    items = f.items;
    step = f.step;
    dispute = λ old e h. absurd (ground (arith, unsettled old e));
  }

  dispute-Follow :
      (t : Db) → Handled db t → Follow db.returns (modify id (with_dispute d) t.returns)
  dispute-Follow t h j p there =
      let (q, later, f) = h.follow j p there in
      elim (Bool-cases (id == j)) [
        | inl same ↦
            let id-eq : id ≡ j = ==→eq id j same in
            let eq : r ≡ p = the_return j p id-eq there in
            (
              with_dispute d q,
              ground (arith, lookup-modify id j (with_dispute d) t.returns),
              subst (λ x. Follows x (with_dispute d q)) eq
                  (dispute-Follows q (subst (λ x. Follows x q) (sym eq) f)),
            )
        | inr other ↦ (q, ground (arith, lookup-modify id j (with_dispute d) t.returns), f)
      ]
    where
      the_return : (j : ℕ) (p : Return) → id ≡ j → lookup j db.returns ≡ some p → r ≡ p
      the_return j p e h = ground (arith, subst (λ k. lookup k db.returns ≡ some p) (sym e) h)

  same_view :
      (q : Return) (t : Db)
      → lookup id t.returns ≡ some q
      → (k : ℕ) → view (update_return id (with_dispute d) t) k ≡ view t k
  same_view q t later k = elim (Bool-cases (id == k)) [
    | inl here ↦
        subst (λ j. view (update_return id (with_dispute d) t) j ≡ view t j) (==→eq id k here)
          (ap status_in (lookup-modify_self id (with_dispute d) q t.returns later)
            ∙ sym (ap status_in later))
    | inr other ↦ ap status_in (ground (arith, lookup-modify id k (with_dispute d) t.returns))
  ]

  -- A dispute that is not settled may change, after whatever else the operation does.
  then_dispute : (t : Db) → Handled db t → Handled db (update_return id (with_dispute d) t)
  then_dispute t h =
      let (q, later, f) = h.follow id r found in
      record {
        books =
            update_return-Books id (with_dispute d) q t later h.books refl
              (λ i. omega (arith, same_claims i id d q t later, h.books.within i));
        follow = dispute-Follow t h;
        move =
            Move-like (view db) (view t) (view (update_return id (with_dispute d) t)) h.move
              (same_view q t later);
        orders = h.orders;
        accounts =
            λ a. Books-tables t (update_return id (with_dispute d) t) (h.accounts a) refl refl;
      }

no_dispute :
    (r : Return)
    → is_some r.dispute ≡ false
    → (old : Dispute) → r.dispute ≡ some old
    → is_settled old.status ≡ false
no_dispute r h old e = absurd (ground arith)

only_dispute :
    (r : Return) (d : Dispute)
    → r.dispute ≡ some d
    → is_settled d.status ≡ false
    → (old : Dispute) → r.dispute ≡ some old
    → is_settled old.status ≡ false
only_dispute r d e h old e' =
    let eq : d ≡ old = ground arith in subst (λ x. is_settled x.status ≡ false) eq h

module _ (id : ℕ) (db : Db) (b : ReturnBooks db) where
  abbrev Ok : Unit {0} → Db → Type 0
  Ok _ db' = Handled db db'

  pub open_dispute-Handled :
      (account_open : Bool) (user : ℕ) (body : Text)
      → Ends Ok AnyError (open_dispute account_open id user body db)
  unfolding open_dispute
  open_dispute-Handled account_open user body =
      Ends-guard Ok AnyError db (not account_open) _ _ (λ _. tt)
        (λ _.
          Ends-require Ok AnyError db (customer_return id user db) _ _ (λ _. tt)
            (λ r mine.
              Ends-guard Ok AnyError db (not (has_status ReturnStatus.rejected r)) _ _ (λ _. tt)
                (λ _.
                  Ends-guard Ok AnyError db (is_some r.dispute) _ _ (λ _. tt)
                    (λ fresh.
                      then_dispute id db r (of_customer_found user r (lookup id db.returns) mine)
                        (no_dispute r fresh) (new_dispute user body) db (Handled-refl db b)))))

  pub add_message-Handled :
      (sender : ℕ) (body : Text) → Ends Ok AnyError (add_message id sender body db)
  unfolding add_message
  add_message-Handled sender body =
      Ends-require Ok AnyError db (customer_return id sender db) _ _ (λ _. tt)
        (λ r mine.
          Ends-require Ok AnyError db r.dispute _ _ (λ _. tt)
            (λ d there.
              Ends-guard Ok AnyError db (is_settled d.status) _ _ (λ _. tt)
                (λ active.
                  then_dispute id db r (of_customer_found sender r (lookup id db.returns) mine)
                    (only_dispute r d there active) (with_message sender body d) db
                    (Handled-refl db b))))

  -- A dispute is found with its return.
  find_dispute_found :
      (d : Dispute)
      → find_dispute id db ≡ some d
      → (r : Return) × (lookup id db.returns ≡ some r) × (r.dispute ≡ some d)
  find_dispute_found d e = elim (Option-cases (lookup id db.returns)) [
    | inl missing ↦ absurd (ground arith)
    | inr (r, found) ↦ (r, found, ground arith)
  ]

  pub add_admin_message-Handled :
      (admin : ℕ) (body : Text) (review : DisputeReview)
      → Ends Ok AnyError (add_admin_message id admin body review db)
  unfolding add_admin_message
  add_admin_message-Handled admin body review =
      Ends-require Ok AnyError db (find_dispute id db) _ _ (λ _. tt)
        (λ d there.
          Ends-guard Ok AnyError db (is_other_dispute review d) _ _ (λ _. tt)
            (λ _.
              Ends-guard Ok AnyError db (is_blank (strip body)) _ _ (λ _. tt)
                (λ _.
                  Ends-guard Ok AnyError db (is_settled d.status) _ _ (λ _. tt)
                    (λ active.
                      let (r, found, its) = find_dispute_found d there in
                      then_dispute id db r found (only_dispute r d its active)
                        (with_message admin body (under_review d)) db (Handled-refl db b)))))

  module _ (r : Return) (found : lookup id db.returns ≡ some r)
      (rejected : has_status ReturnStatus.rejected r ≡ true) where
    claims_nothing : (i : ItemId) → claim_of i r ≡ 0
    claims_nothing i = rw rejected refl

    -- What its items claim is put on top of what the other returns claim.
    overturned :
        All (FitsItem (some id) db) r.items
        → Handled db (update_return id (with_status ReturnStatus.approved none) db)
    overturned fits =
        let f : Return → Return = with_status ReturnStatus.approved none in
        update_return-Handled id (with_status ReturnStatus.approved none) r db found b
          (record {
            order_id = refl;
            seller_order_id = refl;
            user_id = refl;
            items = refl;
            step = inr (
                subst (λ s. Step s ReturnStatus.approved)
                  (sym (status_of ReturnStatus.rejected r rejected)) Step.overturn);
            dispute = λ d e h. e;
          })
          (λ i. omega (
            arith,
            claimed-modify i id (with_status ReturnStatus.approved none) r db.returns found,
            claims_nothing i,
            claimed_split i id r db.returns b.distinct found,
            fits_together (some id) i r.items db (b.items_distinct id r found) fits
                (omega (arith, claimed_split i id r db.returns b.distinct found, b.within i)),
          ))

  reactivate-Handled :
      (r : Return) → lookup id db.returns ≡ some r → Ends Ok AnyError (reactivate id r db)
  reactivate-Handled r found =
      Ends-guard Ok AnyError db (not (has_status ReturnStatus.rejected r)) _ _ (λ _. tt)
        (λ guarded.
          Ends-require Ok AnyError db (lookup r.seller_order_id db.seller_orders) _ _ (λ _. tt)
            (λ so _.
              Ends-require Ok AnyError db (lookup r.order_id db.orders) _ _ (λ _. tt)
                (λ order _.
                  Ends-then (validate_return_quantities r.order_id so.seller_id (some id) r.items)
                    (λ _ t. (t ≡ db) × All (FitsItem (some id) db) r.items) Ok AnyError db _
                    (validate_return_quantities-Fits r.order_id so.seller_id (some id) r.items db)
                    (λ _ t v. rw v.0 (overturned r found (ground arith) v.1)))))

  resolve_for_customer-Handled : Ends Ok AnyError (resolve_for_customer id db)
  unfolding resolve_for_customer
  resolve_for_customer-Handled =
      Ends-require Ok AnyError db (lookup id db.returns) _ _ (λ _. tt)
        (λ r found. reactivate-Handled r found)

  return_side-Handled :
      (for_customer : Bool)
      → Ends Ok AnyError ((if for_customer then resolve_for_customer id else pure tt) db)
  return_side-Handled true = resolve_for_customer-Handled
  return_side-Handled false = Handled-refl db b

  pub resolve_dispute-Handled :
      (admin : ℕ) (note : Text) (review : DisputeReview) (for_customer : Bool)
      → Ends Ok AnyError (resolve_dispute id admin note review for_customer db)
  unfolding resolve_dispute
  resolve_dispute-Handled admin note review for_customer =
      Ends-require Ok AnyError db (find_dispute id db) _ _ (λ _. tt)
        (λ d there.
          Ends-guard Ok AnyError db (is_other_dispute review d) _ _ (λ _. tt)
            (λ _.
              Ends-guard Ok AnyError db (ltb (length (strip note)) 10) _ _ (λ _. tt)
                (λ _.
                  Ends-guard Ok AnyError db (is_settled d.status) _ _ (λ _. tt)
                    (λ active.
                      let (r, found, its) = find_dispute_found d there in
                      Ends-then (if for_customer then resolve_for_customer id else pure tt)
                        (λ _ t. Handled db t) Ok AnyError db _ (return_side-Handled for_customer)
                        (λ _ t h.
                          then_dispute id db r found (only_dispute r d its active)
                            (resolved
                              (if for_customer
                                then DisputeStatus.resolved_customer
                                else DisputeStatus.resolved_seller)
                              note admin d)
                            t h)))))
