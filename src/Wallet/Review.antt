-- ===== src/Wallet/Review.antt =====
-- What each decision on a payout does to the payouts and to the money.
use drip_marketplace.Prelude.{
  ℕ, ◌+◌, ◌≡◌, refl, ◌∙◌, inl, inr, Bool, true, false, not, Option, some, List, arith, Bool-cases,
  Option-cases,
}
use drip_marketplace.Db.{
  Db, ok, Text, WalletTransaction, Event, SellerWallet, Payout, PayoutStatus, Ends, Ends-bind,
  Ends-then, Ends-guard, Ends-require, Ends-weaken, lookup, modify, total, total-modify, ◌>>=◌,
  ◌>>◌,
}
use drip_marketplace.Commission.Release.Conserves.{available_total}
use drip_marketplace.Commission.Refund.Allocated.{AnyError}
use drip_marketplace.Wallet.{
  PayoutReview, add_available, has_evidence, check_payout_review, has_changed,
}
use drip_marketplace.Wallet.Decision.{
  payout_note, decided, is_requested, approve_payout, is_rejectable, reject_payout, give_back,
  complete_payout, complete_open, complete_row, completed_by, is_completable, is_payout_completed,
  is_bad_reference,
}
use drip_marketplace.Texts.{strip, same_optional}
use drip_marketplace.Wallet.Note.{IsCleanNote, payout_note-IsCleanNote}
use drip_marketplace.Wallet.Payouts.{
  IsValidPayout, Step, Follows, outstanding, PayoutBooks, Reviewed, Reviewed-refl, modify-Follow,
  modify-PayoutBooks,
}

-- Any error, as far as money is concerned.
pub check-frame :
    (p : Payout) (review : Option PayoutReview) (db : Db)
    → Ends (λ _ db'. db' ≡ db) AnyError (check_payout_review p review db)
unfolding check_payout_review
check-frame p review db = elim (Bool-cases (has_evidence p)) [
  | inl evidence ↦ rw (evidence, ◌>>◌, Ends) tt
  | inr clear ↦ elim (Bool-cases (has_changed p review)) [
    | inl changed ↦ rw (clear, ◌>>◌, changed, Ends) tt
    | inr same ↦ rw (clear, ◌>>◌, same, Ends) refl
  ]
]

note-frame :
    (note : Option Text) (required : Bool) (db : Db)
    → Ends (λ _ db'. db' ≡ db) AnyError (payout_note note required db)
note-frame given required db =
    Ends-weaken
      (λ text db'. (db' ≡ db) × IsCleanNote text × (payout_note text required db ≡ ok text db))
      (λ _ db'. db' ≡ db) _ AnyError (payout_note given required db)
      (payout_note-IsCleanNote given required db) (λ _ _ h. h.0) (λ _ _. tt)

-- A step of one payout, with what the wallets gain.
step-Reviewed :
    (id : ℕ) (f : Payout → Payout) (p : Payout) (db : Db) (ws : List (ℕ × SellerWallet))
    (ts : List WalletTransaction) (o : List Event)
    → lookup id db.payouts ≡ some p
    → Follows p (f p)
    → IsValidPayout (f p)
    → total (λ (w : SellerWallet). w.available_balance) ws + outstanding (f p)
      ≡ available_total db + outstanding p
    → PayoutBooks db
    → Reviewed db (record db {
      payouts = modify id f db.payouts;
      wallets = ws;
      transactions = ts;
      outbox = o;
    })
step-Reviewed id f p db ws ts o found h v same b =
    let kept : PayoutBooks (record db { payouts = modify id f db.payouts }) =
      modify-PayoutBooks id f p db found v b in
    record {
      books = record { payouts_valid = kept.payouts_valid; fresh = kept.fresh };
      follow = modify-Follow id f p db found h;
      money = omega (arith, total-modify outstanding id f p db.payouts found, same);
    }

requested-eq : (s : PayoutStatus) → not (is_requested s) ≡ false → s ≡ PayoutStatus.requested
requested-eq PayoutStatus.requested e = refl
requested-eq PayoutStatus.approved e = absurd (ground arith)
requested-eq PayoutStatus.processing e = absurd (ground arith)
requested-eq PayoutStatus.completed e = absurd (ground arith)
requested-eq PayoutStatus.rejected e = absurd (ground arith)

-- A decision's step, by the status that it starts from.
reject-Step : (s : PayoutStatus) → not (is_rejectable s) ≡ false → Step s PayoutStatus.rejected
reject-Step PayoutStatus.requested e = Step.reject_request
reject-Step PayoutStatus.approved e = Step.reject_approved
reject-Step PayoutStatus.processing e = absurd (ground arith)
reject-Step PayoutStatus.completed e = absurd (ground arith)
reject-Step PayoutStatus.rejected e = absurd (ground arith)

complete-Step : (s : PayoutStatus) → not (is_completable s) ≡ false → Step s PayoutStatus.completed
complete-Step PayoutStatus.requested e = absurd (ground arith)
complete-Step PayoutStatus.approved e = Step.complete_approved
complete-Step PayoutStatus.processing e = Step.complete_processing
complete-Step PayoutStatus.completed e = absurd (ground arith)
complete-Step PayoutStatus.rejected e = absurd (ground arith)

-- A payout that is not rejected yet holds its amount, and is not completed either.
outstanding-Step : (p : Payout) (s : PayoutStatus) → Step p.status s → outstanding p ≡ p.amount
outstanding-Step p s st = go p.status p.amount s st
  where
    go :
        (r : PayoutStatus) (amount : ℕ) (s : PayoutStatus)
        → Step r s
        → elim r [ PayoutStatus.rejected ↦ 0 | _ ↦ amount ] ≡ amount
    go r amount s Step.approve = refl
    go r amount s Step.reject_request = refl
    go r amount s Step.reject_approved = refl
    go r amount s Step.complete_approved = refl
    go r amount s Step.complete_processing = refl

open-Step : (r s : PayoutStatus) → Step r s → is_payout_completed r ≡ false
open-Step r s Step.approve = refl
open-Step r s Step.reject_request = refl
open-Step r s Step.reject_approved = refl
open-Step r s Step.complete_approved = refl
open-Step r s Step.complete_processing = refl

module _ (id admin : ℕ) (review : Option PayoutReview) (db : Db) (b : PayoutBooks db) where
  pub approve-Reviewed :
      (note : Option Text)
      → Ends (λ _ db'. Reviewed db db') AnyError (approve_payout id admin note review db)
  unfolding approve_payout
  approve-Reviewed given =
      Ends-require P AnyError db (lookup id db.payouts) _ _ (λ _. tt)
        (λ p found.
          Ends-guard P AnyError db (not (is_requested p.status)) _ _ (λ _. tt)
            (λ requested.
              Ends-then (check_payout_review p review) (λ _ t. t ≡ db) P AnyError db _
                (check-frame p review db)
                (λ _ t checked. rw checked (
                  Ends-bind (payout_note given false) (λ _ t. t ≡ db) P AnyError db _
                    (note-frame given false db)
                    (λ text u noted. rw noted (
                      let st : Step p.status PayoutStatus.approved =
                        rw (requested-eq p.status requested) Step.approve in
                      let v : IsValidPayout p = b.payouts_valid id p found in
                      step-Reviewed id (decided PayoutStatus.approved admin text) p db db.wallets
                        db.transactions _ found
                        (record {
                          seller_id = refl;
                          amount = refl;
                          method = refl;
                          detail = refl;
                          step = inr st;
                        })
                        (record {
                          referenced = v.referenced ∙ open-Step _ _ st;
                          timed = v.timed ∙ open-Step _ _ st;
                        })
                        (omega (arith, outstanding-Step p _ st)) b))))))
    where
      P : Unit {0} → Db → Type 0
      P _ db' = Reviewed db db'

  give_back-Reviewed :
      (text : Option Text) (p : Payout)
      → lookup id db.payouts ≡ some p
      → Step p.status PayoutStatus.rejected
      → Ends (λ _ db'. Reviewed db db') AnyError (give_back id admin text p db)
  give_back-Reviewed text p found st = elim (Option-cases (lookup p.seller_id db.wallets)) [
    | inl absent ↦ rw (absent, ◌>>=◌, Ends) tt
    | inr (w, wallet) ↦
        let v : IsValidPayout p = b.payouts_valid id p found in
        rw (wallet, ◌>>=◌, Ends)
          (step-Reviewed id (decided PayoutStatus.rejected admin text) p db
            (modify p.seller_id (add_available p.amount) db.wallets) _ _ found
            (record {
              seller_id = refl;
              amount = refl;
              method = refl;
              detail = refl;
              step = inr st;
            })
            (record {
              referenced = v.referenced ∙ open-Step _ _ st;
              timed = v.timed ∙ open-Step _ _ st;
            })
            (omega (
              arith,
              outstanding-Step p _ st,
              total-modify (λ (u : SellerWallet). u.available_balance) p.seller_id
                  (add_available p.amount) w db.wallets wallet,
            ))
            b)
  ]

  pub reject-Reviewed :
      (note : Text)
      → Ends (λ _ db'. Reviewed db db') AnyError (reject_payout id admin note review db)
  unfolding reject_payout
  reject-Reviewed given =
      Ends-require P AnyError db (lookup id db.payouts) _ _ (λ _. tt)
        (λ p found.
          Ends-guard P AnyError db (not (is_rejectable p.status)) _ _ (λ _. tt)
            (λ rejectable.
              Ends-then (check_payout_review p review) (λ _ t. t ≡ db) P AnyError db _
                (check-frame p review db)
                (λ _ t checked. rw checked (
                  Ends-bind (payout_note (some given) true) (λ _ t. t ≡ db) P AnyError db _
                    (note-frame (some given) true db)
                    (λ text u noted.
                      rw noted
                        (give_back-Reviewed text p found (reject-Step p.status rejectable)))))))
    where
      P : Unit {0} → Db → Type 0
      P _ db' = Reviewed db db'

  complete_open-Reviewed :
      (now : ℕ) (reference : Text) (text : Option Text) (p : Payout)
      → lookup id db.payouts ≡ some p
      → Ends
          (λ _ db'. Reviewed db db')
          AnyError
          (complete_open now id admin reference text review p db)
  complete_open-Reviewed now reference text p found =
      Ends-guard P AnyError db (not (is_completable p.status)) _ _ (λ _. tt)
        (λ completable.
          Ends-then (check_payout_review p review) (λ _ t. t ≡ db) P AnyError db _
            (check-frame p review db)
            (λ _ t checked. rw checked (
              let st : Step p.status PayoutStatus.completed = complete-Step p.status completable in
              step-Reviewed id (completed_by now admin reference text) p db db.wallets
                db.transactions _ found
                (record {
                  seller_id = refl;
                  amount = refl;
                  method = refl;
                  detail = refl;
                  step = inr st;
                })
                (record { referenced = refl; timed = refl })
                (omega (arith, outstanding-Step p _ st)) b)))
    where
      P : Unit {0} → Db → Type 0
      P _ db' = Reviewed db db'

  complete_row-Reviewed :
      (now : ℕ) (reference : Text) (text : Option Text) (p : Payout)
      → lookup id db.payouts ≡ some p
      → Ends
          (λ _ db'. Reviewed db db')
          AnyError
          (complete_row now id admin reference text review p db)
  complete_row-Reviewed now reference text p found =
      elim (Bool-cases (is_payout_completed p.status)) [
        | inl done ↦ elim (Bool-cases (not (same_optional p.transfer_reference (some reference)))) [
          | inl other ↦ rw (done, other, Ends) tt
          | inr same ↦ rw (done, same, Ends) (Reviewed-refl db b)
        ]
        | inr waiting ↦ rw (waiting, Ends) (complete_open-Reviewed now reference text p found)
      ]

  pub complete-Reviewed :
      (now : ℕ) (reference : Text) (note : Option Text)
      → Ends
          (λ _ db'. Reviewed db db')
          AnyError
          (complete_payout now id admin reference note review db)
  unfolding complete_payout
  complete-Reviewed now reference given =
      Ends-guard P AnyError db (is_bad_reference (strip reference)) _ _ (λ _. tt)
        (λ _.
          Ends-bind (payout_note given false) (λ _ t. t ≡ db) P AnyError db _
            (note-frame given false db)
            (λ text u noted. rw noted (
              Ends-require P AnyError db (lookup id db.payouts) _ _ (λ _. tt)
                (λ p found. complete_row-Reviewed now (strip reference) text p found))))
    where
      P : Unit {0} → Db → Type 0
      P _ db' = Reviewed db db'
