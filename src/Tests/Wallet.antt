-- ===== src/Tests/Wallet.antt =====
-- Withdrawals and payouts on the databases of Tests.
use drip_marketplace.Prelude.{◌≡◌, refl, true, Option, none, some, List, [], ◌∷◌, arith}
use drip_marketplace.Db.{
  Db, Text, Payout, PayoutStatus, Ends, ok, lookup, modify, insert, bad_payout_note,
}
use drip_marketplace.Commission.Refund.Allocated.{AnyError}
use drip_marketplace.Texts.{strip, lstrip, rstrip, is_space, any_char}
use drip_marketplace.Outbox.{queued, is_queued}
use drip_marketplace.Wallet.{debit_available, request_withdrawal, check_payout_review, has_changed}
use drip_marketplace.Wallet.Decision.{
  payout_note, is_bad_note, is_bad_in_note, approve_payout, reject_payout, complete_payout,
  is_bad_reference,
}
use drip_marketplace.Wallet.Note.{IsCleanNote, payout_note-IsCleanNote}
use drip_marketplace.Wallet.Payouts.{PayoutBooks}
use drip_marketplace.Wallet.Requests.{Requested, request_withdrawal-Requested}
use drip_marketplace.Wallet.History.{
  PayoutOp, run_payout, run_payouts, History, run_payouts-History,
}
use drip_marketplace.Wallet.Completion.{complete_payout_twice}
use drip_marketplace.Tests.{wallet, shop}

-- Seller 7 may withdraw 900 rupees.
abbrev rich : Db
rich = record shop { wallets = (7, record wallet { available_balance = 90000 }) ∷ [] }

rich-PayoutBooks : PayoutBooks rich
unfolding lookup
rich-PayoutBooks = record { payouts_valid = λ k p e. absurd (ground arith); fresh = tt }

request_withdrawal-Requested_example :
    Ends (λ _ db'. Requested 7 60000 rich db') AnyError (request_withdrawal 7 60000 3 rich)
request_withdrawal-Requested_example = request_withdrawal-Requested 7 60000 3 rich rich-PayoutBooks

-- "TX-1 " with a blank at its end, and "ok".
abbrev receipt : Text
receipt = 84 ∷ 88 ∷ 45 ∷ 49 ∷ 32 ∷ []

abbrev fine : Text
fine = 32 ∷ 111 ∷ 107 ∷ []

abbrev story : List PayoutOp
story =
    PayoutOp.request 7 60000 3
    ∷ PayoutOp.approve 60 1 none none
    ∷ PayoutOp.complete 900 60 1 receipt none none
    ∷ PayoutOp.reject 60 1 fine none
    ∷ []

run_payouts-History_example : History rich (run_payouts story rich)
run_payouts-History_example = run_payouts-History story rich rich-PayoutBooks

payout_note-IsCleanNote_example :
    Ends
      (λ text db'. (db' ≡ rich) × IsCleanNote text × (payout_note text true rich ≡ ok text rich))
      (λ e. e ≡ bad_payout_note)
      (payout_note (some fine) true rich)
payout_note-IsCleanNote_example = payout_note-IsCleanNote (some fine) true rich

abbrev paid : Db
paid = run_payouts story rich

complete_payout_twice_example :
    Ends
      (λ _ db'. complete_payout 950 60 1 receipt none none db' ≡ ok tt db')
      AnyError
      (complete_payout 900 60 1 receipt none none paid)
complete_payout_twice_example = complete_payout_twice 60 1 receipt none none 900 950 paid

abbrev status_of : Option Payout → Option PayoutStatus
status_of none = none
status_of (some payout) = some payout.status

-- The late rejection is refused: the payout stays completed, and 300 rupees are left.
story_ends :
    (status_of (lookup 60 paid.payouts) ≡ some PayoutStatus.completed)
    × (paid.wallets ≡ (7, wallet) ∷ [])
unfolding run_payouts run_payout request_withdrawal debit_available lookup modify insert
    approve_payout payout_note check_payout_review has_changed complete_payout reject_payout
    is_bad_reference strip lstrip rstrip is_space any_char is_bad_note is_bad_in_note queued
    is_queued
story_ends = (refl, refl)
