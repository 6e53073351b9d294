-- ===== src/Wallet/Decision.antt =====
-- The administrators' decisions on a payout: approve, reject, and record the completed transfer
-- (services/wallet_service.py).
use drip_marketplace.Prelude.{
  ℕ, Bool, true, false, not, ◌&&◌, ◌||◌, Option, none, some, length, ltb, leb, ◌==◌, if◌then◌else◌,
}
use drip_marketplace.Db.{
  Tx, ok, pure, raise_if, gets, modify_db, or_raise, ◌>>=◌, ◌>>◌, Text, Payout, PayoutStatus,
  WalletTxType, Event, lookup, modify, not_found_payout, payout_wrong_status, bad_payout_note,
  bad_transfer_reference, completed_with_other_reference, approve_first, wallet_missing,
}
use drip_marketplace.Texts.{strip, is_blank, any_char, same_optional}
use drip_marketplace.Outbox.{queue_notification}
use drip_marketplace.Wallet.{PayoutReview, check_payout_review, credit_available, log_payout}

-- A control character that a note may not have: any but tab, line feed and carriage return.
unfoldable pub is_bad_in_note : ℕ → Bool
is_bad_in_note c = ltb c 32 && (not (c == 10) && (not (c == 13) && not (c == 9))) || c == 127

-- The text is not empty and breaks a rule.
unfoldable pub is_bad_note : Text → Bool
is_bad_note text = not (is_blank text) && (ltb 500 (length text) || any_char is_bad_in_note text)

abbrev pub stripped : Option Text → Option Text
stripped none = none
stripped (some note) = some (strip note)

-- `not text`
abbrev pub is_falsy : Option Text → Bool
is_falsy none = true
is_falsy (some text) = is_blank text

abbrev pub breaks_rule : Option Text → Bool
breaks_rule none = false
breaks_rule (some text) = is_bad_note text

-- `text or None`
abbrev pub or_none : Option Text → Option Text
or_none none = none
or_none (some text) = if is_blank text then none else some text

-- `_payout_note`
unfoldable pub payout_note : Option Text → Bool → Tx (Option Text)
payout_note note required = do
  raise_if (required && is_falsy (stripped note) || breaks_rule (stripped note)) bad_payout_note
  pure (or_none (stripped note))

abbrev pub new_note : Option Text → Option Text → Option Text
new_note none old = old
new_note (some note) old = some note

-- `update_status`, for the two statuses that it is called with; a note that is given is not empty.
abbrev pub decided : PayoutStatus → ℕ → Option Text → Payout → Payout
decided status admin_id note payout = record payout {
  status = status;
  approved_by = some admin_id;
  admin_note = new_note note payout.admin_note;
}

abbrev pub update_status : ℕ → PayoutStatus → ℕ → Option Text → Tx (Unit {0})
update_status payout_id status admin_id note db =
    ok tt (record db { payouts = modify payout_id (decided status admin_id note) db.payouts })

abbrev pub is_requested : PayoutStatus → Bool
is_requested PayoutStatus.requested = true
is_requested _ = false

unfoldable pub approve_payout : ℕ → ℕ → Option Text → Option PayoutReview → Tx (Unit {0})
approve_payout payout_id admin_id note review = do
  row ← gets (λ db. lookup payout_id db.payouts)
  payout ← or_raise row not_found_payout
  raise_if (not (is_requested payout.status)) payout_wrong_status
  check_payout_review payout review
  text ← payout_note note false
  update_status payout_id PayoutStatus.approved admin_id text
  queue_notification (Event.payout_status payout_id PayoutStatus.approved)

abbrev pub is_rejectable : PayoutStatus → Bool
is_rejectable PayoutStatus.requested = true
is_rejectable PayoutStatus.approved = true
is_rejectable _ = false

-- The amount goes back to the seller's balance, and the payout is marked.
abbrev pub give_back : ℕ → ℕ → Option Text → Payout → Tx (Unit {0})
give_back payout_id admin_id note payout = do
  row ← gets (λ db. lookup payout.seller_id db.wallets)
  wallet ← or_raise row wallet_missing
  credit_available payout.seller_id payout.amount
  modify_db (log_payout payout.seller_id WalletTxType.credit_adjustment payout.amount payout_id)
  update_status payout_id PayoutStatus.rejected admin_id note
  queue_notification (Event.payout_status payout_id PayoutStatus.rejected)

unfoldable pub reject_payout : ℕ → ℕ → Text → Option PayoutReview → Tx (Unit {0})
reject_payout payout_id admin_id note review = do
  row ← gets (λ db. lookup payout_id db.payouts)
  payout ← or_raise row not_found_payout
  raise_if (not (is_rejectable payout.status)) payout_wrong_status
  check_payout_review payout review
  text ← payout_note (some note) true
  give_back payout_id admin_id text payout

unfoldable pub is_bad_reference : Text → Bool
is_bad_reference reference =
    not (leb 3 (length reference) && leb (length reference) 255)
    || any_char (λ char. ltb char 32 || char == 127) reference

abbrev pub is_completable : PayoutStatus → Bool
is_completable PayoutStatus.approved = true
is_completable PayoutStatus.processing = true
is_completable _ = false

abbrev pub is_payout_completed : PayoutStatus → Bool
is_payout_completed PayoutStatus.completed = true
is_payout_completed _ = false

abbrev pub completed_by : ℕ → ℕ → Text → Option Text → Payout → Payout
completed_by now admin_id reference note payout = record payout {
  status = PayoutStatus.completed;
  transfer_reference = some reference;
  approved_by = some admin_id;
  completed_at = some now;
  admin_note = new_note note payout.admin_note;
}

abbrev pub complete_open :
    ℕ → ℕ → ℕ → Text → Option Text → Option PayoutReview → Payout → Tx (Unit {0})
complete_open now payout_id admin_id reference note review payout = do
  raise_if (not (is_completable payout.status)) approve_first
  check_payout_review payout review
  modify_db (λ db. record db {
    payouts = modify payout_id (completed_by now admin_id reference note) db.payouts;
  })
  queue_notification (Event.payout_status payout_id PayoutStatus.completed)

abbrev pub complete_row :
    ℕ → ℕ → ℕ → Text → Option Text → Option PayoutReview → Payout → Tx (Unit {0})
complete_row now payout_id admin_id reference note review payout =
    if is_payout_completed payout.status
    then raise_if (not (same_optional payout.transfer_reference (some reference)))
        completed_with_other_reference
    else complete_open now payout_id admin_id reference note review payout

-- The stripped reference is what is checked, compared and stored.
abbrev pub complete_with : ℕ → ℕ → ℕ → Text → Option Text → Option PayoutReview → Tx (Unit {0})
complete_with now payout_id admin_id reference note review = do
  raise_if (is_bad_reference reference) bad_transfer_reference
  text ← payout_note note false
  row ← gets (λ db. lookup payout_id db.payouts)
  payout ← or_raise row not_found_payout
  complete_row now payout_id admin_id reference text review payout

unfoldable pub complete_payout :
    ℕ → ℕ → ℕ → Text → Option Text → Option PayoutReview → Tx (Unit {0})
complete_payout now payout_id admin_id reference note review =
    complete_with now payout_id admin_id (strip reference) note review
