-- ===== src/Returns/Decided.antt =====
-- The decisions on a return take steps and claim nothing more.
use mathlib.Core.Path.{subst}
use drip_marketplace.Prelude.{
  ℕ, zero, suc, ◌≤◌, ◌≡◌, refl, sym, ap, ◌∙◌, inr, true, false, not, Option, none, some, arith,
  ◌==◌, ==→eq,
}
use drip_marketplace.Db.{
  Db, Text, Return, ReturnStatus, ItemId, SellerOrder, Ends, Ends-guard, Ends-require, lookup,
}
use drip_marketplace.Commission.Refund.Allocated.{AnyError}
use drip_marketplace.Returns.{
  ReturnReview, return_code, has_status, of_seller, if_sold_by, seller_return, with_status,
  move_return, by_seller, by_admin, is_other_return,
}
use drip_marketplace.Returns.Request.{claim_of}
use drip_marketplace.Returns.Steps.{Step, ReturnBooks, Handled, update_return-less}

decode : ℕ → ReturnStatus
decode zero = ReturnStatus.requested
decode (suc zero) = ReturnStatus.approved
decode (suc (suc zero)) = ReturnStatus.rejected
decode (suc (suc (suc zero))) = ReturnStatus.received
decode (suc (suc (suc (suc n)))) = ReturnStatus.refunded

decode_code : (s : ReturnStatus) → decode (return_code s) ≡ s
unfolding decode
decode_code ReturnStatus.requested = refl
decode_code ReturnStatus.approved = refl
decode_code ReturnStatus.rejected = refl
decode_code ReturnStatus.received = refl
decode_code ReturnStatus.refunded = refl

pub status_of : (s : ReturnStatus) (r : Return) → has_status s r ≡ true → r.status ≡ s
status_of s r h =
    sym (decode_code r.status)
    ∙ ap decode (==→eq (return_code r.status) (return_code s) h)
    ∙ decode_code s

-- A return that is not rejected claims all it has, so a new status claims no more.
pub claims_less :
    (s : ReturnStatus) (text : Option Text) (i : ItemId) (r : Return)
    → has_status ReturnStatus.rejected r ≡ false
    → claim_of i (with_status s text r) ≤ claim_of i r
claims_less s text i r h = rw h (ground arith)

if_sold_by_found :
    (seller : ℕ) (q r : Return) (so : Option SellerOrder) → if_sold_by seller q so ≡ some r → q ≡ r
if_sold_by_found seller q r none e = absurd (ground arith)
if_sold_by_found seller q r (some so) e = ground arith

of_seller_found :
    (seller : ℕ) (r : Return) (db : Db) (row : Option Return)
    → of_seller seller db row ≡ some r
    → row ≡ some r
of_seller_found seller r db none e = absurd (ground arith)
of_seller_found seller r db (some q) e =
    ap some (if_sold_by_found seller q r (lookup q.seller_order_id db.seller_orders) e)

seller_return_found :
    (id seller : ℕ) (r : Return) (db : Db)
    → seller_return id seller db ≡ some r
    → lookup id db.returns ≡ some r
unfolding seller_return
seller_return_found id seller r db e = of_seller_found seller r db (lookup id db.returns) e

module _ (from target : ReturnStatus) (st : Step from target)
    (active : (return_code from == return_code ReturnStatus.rejected) ≡ false) (id : ℕ) (db : Db)
    (b : ReturnBooks db) where
  move_return-Handled :
      (text : Option Text) (r : Return)
      → lookup id db.returns ≡ some r
      → Ends (λ _ db'. Handled db db') AnyError (move_return from target id text r db)
  move_return-Handled text r found =
      Ends-guard (λ _ db'. Handled db db') AnyError db (not (has_status from r)) _ _ (λ _. tt)
        (λ guarded.
          let same : r.status ≡ from = status_of from r (ground arith) in
          let unrejected : has_status ReturnStatus.rejected r ≡ false =
            subst (λ s. (return_code s == return_code ReturnStatus.rejected) ≡ false) (sym same)
              active in
          update_return-less id (with_status target text) r db found b
            (record {
              order_id = refl;
              seller_order_id = refl;
              user_id = refl;
              items = refl;
              step = inr (subst (λ s. Step s target) (sym same) st);
              dispute = λ d e h. e;
            })
            (λ i. claims_less target text i r unrejected))

  pub by_admin-Handled :
      (review : ReturnReview)
      → Ends (λ _ db'. Handled db db') AnyError (by_admin from target id review db)
  by_admin-Handled review =
      Ends-require (λ _ db'. Handled db db') AnyError db (lookup id db.returns) _ _ (λ _. tt)
        (λ r found.
          Ends-guard (λ _ db'. Handled db db') AnyError db (is_other_return review r) _ _ (λ _. tt)
            (λ _. move_return-Handled review.admin_note r found))

  pub by_seller-Handled :
      (seller : ℕ) (text : Option Text)
      → Ends (λ _ db'. Handled db db') AnyError (by_seller from target id seller text db)
  by_seller-Handled seller text =
      Ends-require (λ _ db'. Handled db db') AnyError db (seller_return id seller db) _ _ (λ _. tt)
        (λ r found. move_return-Handled text r (seller_return_found id seller r db found))
