-- ===== src/Wallet/Completion.antt =====
-- Recording a completed transfer is idempotent (`admin_complete_payout`).
use drip_marketplace.Prelude.{
  ℕ, ◌≡◌, refl, inl, inr, true, false, not, Option, some, [], ◌∷◌, arith, Bool-cases,
}
use drip_marketplace.Db.{
  Db, Text, Payout, ok, Ends, Ends-guard, Ends-require, Ends-then, Ends-weaken, ◌>>=◌, ◌>>◌, lookup,
  lookup-modify_self,
}
use drip_marketplace.Commission.Refund.Allocated.{AnyError}
use drip_marketplace.Texts.{strip, same_text, same_optional}
use drip_marketplace.Wallet.{PayoutReview, check_payout_review}
use drip_marketplace.Wallet.Decision.{
  stripped, breaks_rule, or_none, is_bad_reference, is_completable, is_payout_completed,
  completed_by, complete_open, complete_row, complete_payout,
}
use drip_marketplace.Wallet.Note.{payout_note-accepted, payout_note-refused}
use drip_marketplace.Wallet.Review.{check-frame}

pub same_text_refl : (text : Text) → same_text text text ≡ true
unfolding same_text
same_text_refl [] = refl
same_text_refl (c ∷ text) = ground (arith, same_text_refl text)

-- The payout is completed with this reference.
record CompletedWith (id : ℕ) (reference : Text) (db : Db) : Type 0 where
  payout : Payout
  found : lookup id db.payouts ≡ some payout
  done : is_payout_completed payout.status ≡ true
  same : same_optional payout.transfer_reference (some reference) ≡ true

module _ (id admin : ℕ) (reference : Text) (note : Option Text) (review : Option PayoutReview) where
  complete_again :
      (now : ℕ) (db : Db)
      → is_bad_reference (strip reference) ≡ false
      → breaks_rule (stripped note) ≡ false
      → CompletedWith id (strip reference) db
      → complete_payout now id admin reference note review db ≡ ok tt db
  unfolding complete_payout
  complete_again now db fine clean c =
      rw (fine, ◌>>◌, ◌>>=◌, payout_note-accepted note false db clean, ◌>>=◌, c.found)
        (rw (c.done, c.same) refl)

  complete_open-CompletedWith :
      (now : ℕ) (text : Option Text) (p : Payout) (db : Db)
      → lookup id db.payouts ≡ some p
      → Ends
          (λ _ db'. CompletedWith id (strip reference) db')
          AnyError
          (complete_open now id admin (strip reference) text review p db)
  unfolding same_optional
  complete_open-CompletedWith now text p db found =
      Ends-guard P AnyError db (not (is_completable p.status)) _ _ (λ _. tt)
        (λ completable.
          Ends-then (check_payout_review p review) (λ _ t. t ≡ db) P AnyError db _
            (check-frame p review db)
            (λ _ t checked. rw checked (record {
              payout = completed_by now admin (strip reference) text p;
              found =
                  lookup-modify_self id (completed_by now admin (strip reference) text) p db.payouts
                    found;
              done = refl;
              same = same_text_refl (strip reference);
            })))
    where
      P : Unit {0} → Db → Type 0
      P _ db' = CompletedWith id (strip reference) db'

  complete_row-CompletedWith :
      (now : ℕ) (text : Option Text) (p : Payout) (db : Db)
      → lookup id db.payouts ≡ some p
      → Ends
          (λ _ db'. CompletedWith id (strip reference) db')
          AnyError
          (complete_row now id admin (strip reference) text review p db)
  complete_row-CompletedWith now text p db found =
      elim (Bool-cases (is_payout_completed p.status)) [
        | inl done ↦
            elim (Bool-cases (same_optional p.transfer_reference (some (strip reference)))) [
              | inl same ↦
                  rw (done, same, Ends)
                    (record { payout = p; found = found; done = done; same = same })
              | inr other ↦ rw (done, other, Ends) tt
            ]
        | inr waiting ↦ rw (waiting, Ends) (complete_open-CompletedWith now text p db found)
      ]

  -- A completion that goes through can be sent again at any time: it is accepted and changes nothing.
  pub complete_payout_twice :
      (now later : ℕ) (db : Db)
      → Ends
          (λ _ db'. complete_payout later id admin reference note review db' ≡ ok tt db')
          AnyError
          (complete_payout now id admin reference note review db)
  unfolding complete_payout
  complete_payout_twice now later db =
      Ends-guard P AnyError db (is_bad_reference (strip reference)) _ _ (λ _. tt)
        (λ fine. elim (Bool-cases (breaks_rule (stripped note))) [
          | inl bad ↦ rw (payout_note-refused note false db bad, ◌>>=◌, Ends) tt
          | inr clean ↦
              rw (payout_note-accepted note false db clean, ◌>>=◌)
                (Ends-require P AnyError db (lookup id db.payouts) _ _ (λ _. tt)
                  (λ p found.
                    Ends-weaken (λ _ db'. CompletedWith id (strip reference) db') P AnyError
                      AnyError
                      (complete_row now id admin (strip reference) (or_none (stripped note)) review
                        p db)
                      (complete_row-CompletedWith now (or_none (stripped note)) p db found)
                      (λ _ db' c. complete_again later db' fine clean c) (λ _ _. tt)))
        ])
    where
      P : Unit {0} → Db → Type 0
      P _ db' = complete_payout later id admin reference note review db' ≡ ok tt db'
