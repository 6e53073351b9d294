-- ===== src/Db/Monad.antt =====
-- Failures of the services, and the monad of their operations: a database transaction that either
-- goes through and leaves a new database, or raises and is rolled back (core/database.py).
use drip_marketplace.Prelude.{
  ◌≡◌, refl, ◌⊎◌, inl, inr, Bool, true, false, Option, none, some, arith,
}

-- The exceptions of core/exceptions.py, told apart by what the raise says.
pub data Error : Type 0 where
  not_found_seller_order not_found_wallet not_found_payout not_found_bank_account : Error
  not_found_seller not_found_order not_found_checkout not_found_variant : Error
  only_delivered_settled funds_not_collected refund_target_required no_seller_allocation : Error
  historical_refunds return_exceeds_merchandise exceeds_merchandise_and_shipping : Error
  exceeds_merchandise rounding_residual allocation_exceeds_gross allocation_exceeds_commission :
      Error
  insufficient_balance below_minimum_withdrawal above_maximum_withdrawal balance_changed : Error
  payout_wrong_status transfer_evidence payout_changed bad_payout_note bad_transfer_reference :
      Error
  completed_with_other_reference approve_first wallet_missing : Error
  inventory_inconsistent stock_below_reserved bad_reorder_point stock_changed : Error
  coupon_not_found coupon_inactive coupon_not_yet_valid coupon_expired coupon_limit : Error
  coupon_minimum coupon_already_used sign_in_for_coupon : Error
  checkout_quantities items_unavailable insufficient_stock payfast_unavailable cod_limit : Error
  account_cannot_order empty_cart guest_details_required quote_changed quote_invalid
        checkout_key_reused :
      Error
  checkout_recovery_expired checkout_in_progress sign_in_required : Error
  cannot_cancel_status already_dispatched already_paid : Error
  bad_transition not_payable_for_fulfilment : Error
  seller_not_active wallet_payment_only no_slots : Error
  not_found_payment refund_key_reused refund_linked_elsewhere legacy_refund : Error
  collect_after_delivery collection_mismatch collected_with_other_reference payment_changed : Error
  order_changed collection_blocked collection_incomplete : Error
  not_found_return not_found_dispute not_found_user not_your_order not_returnable repeated_item :
      Error
  not_in_seller_order exceeds_purchased return_wrong_status return_changed estimate_changed : Error
  dispute_not_allowed dispute_exists dispute_resolved dispute_changed blank_message short_note :
      Error
  rejected_return_required return_data_missing payment_required bad_refund_request : Error
  not_found_refund refund_confirmed_differently refund_changed refund_blocked : Error
  bad_return_quantities return_inventory_missing : Error
  not_refundable only_rupees refund_balance_changed exceeds_refundable : Error
  historical_method not_awaiting_payment payment_mismatch payment_unresolved payment_not_retryable :
      Error
  attempt_unavailable callback_mismatch stale_attempt payment_not_confirmed reference_taken : Error
  not_payfast address_missing gateway_unavailable initiation_overtaken unexpected_reference : Error
  integrity_error : Error

-- What an operation on a database of type S ends with.
pub data Result (S A : Type 0) : Type 0 where
  ok : A → S → Result S A
  err : Error → Result S A

abbrev pub Action : Type 0 → Type 0 → Type 0
Action S A = S → Result S A

infixl 5 ◌>>=◌ ◌>>◌
abbrev pub ◌>>=◌ : {S A B : Type 0} → Action S A → (A → Action S B) → Action S B
◌>>=◌ m f s = elim (m s) [ ok a s' ↦ f a s' | err e ↦ err e ]

abbrev pub ◌>>◌ : {S A B : Type 0} → Action S A → Action S B → Action S B
◌>>◌ m k s = elim (m s) [ ok _ s' ↦ k s' | err e ↦ err e ]

module _ {S : Type 0} where
  abbrev pub pure : {A : Type 0} → A → Action S A
  pure a s = ok a s

  abbrev pub raise : {A : Type 0} → Error → Action S A
  raise e s = err e

  abbrev pub gets : {A : Type 0} → (S → A) → Action S A
  gets f s = ok (f s) s

  abbrev pub modify_db : (S → S) → Action S (Unit {0})
  modify_db f s = ok tt (f s)

  -- `if test: raise e`
  abbrev pub raise_if : Bool → Error → Action S (Unit {0})
  raise_if true e s = err e
  raise_if false e s = ok tt s

  -- `if x is None: raise e`
  abbrev pub or_raise : {A : Type 0} → Option A → Error → Action S A
  or_raise none e s = err e
  or_raise (some a) e s = ok a s

-- The database after a transaction: an error is rolled back.
abbrev pub after : {S A : Type 0} → Action S A → S → S
after m s = elim (m s) [ ok _ t ↦ t | err _ ↦ s ]

pub Result-cases :
    {S A : Type 0} (r : Result S A)
    → ((a : A) × (s : S) × (r ≡ ok a s)) ⊎ ((e : Error) × (r ≡ err e))
Result-cases (ok a s) = inl (a, s, refl)
Result-cases (err e) = inr (e, refl)

-- Inversion of an operation that went through.
pub >>=-eq-ok :
    {S A B : Type 0} (m : Action S A) (f : A → Action S B) {s s' : S} {b : B}
    → (m >>= f) s ≡ ok b s'
    → (a : A) × (t : S) × (m s ≡ ok a t) × (f a t ≡ ok b s')
>>=-eq-ok m f {s} h = elim (Result-cases (m s)) [
  | inl (a, t, e) ↦ (a, t, e, ground arith)
  | inr (x, e) ↦ absurd (ground arith)
]
