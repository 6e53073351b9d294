-- ===== src/Tests/Payments.antt =====
-- Refund requests on the databases of Tests.
use drip_marketplace.Prelude.{
  sort_by, put_by, ◌≡◌, refl, inl, inr, none, some, [], ◌∷◌, arith, ◌==◌, Bool-cases, false,
}
use drip_marketplace.Db.{
  ok, Ends, Never, lookup, insert, total, Db, Order, Payment, PaymentMethod, PaymentStatus, Text,
  modify,
}
use drip_marketplace.Commission.Refund.Allocated.{AnyError}
use drip_marketplace.Texts.{strip, lstrip, rstrip, is_space, any_char, same_text, same_optional}
use drip_marketplace.Payments.{find_refund, RefundRequest, total_refunded, request_new, refund}
use drip_marketplace.Payments.Requested.{RefundBooks, RefundRequested, refund-Requested}
use drip_marketplace.Payments.Retried.{refund_retry}
use drip_marketplace.Commission.Ledger.Charged.{Books}
use drip_marketplace.Commission.Settle.Every.{settle_every}
use drip_marketplace.Commission.Settle.{
  settle, settle_new, apply_all, credit_settlement, refresh_all,
}
use drip_marketplace.Commission.Ledger.{commission_on}
use drip_marketplace.Money.{div_half_up}
use drip_marketplace.Payments.Collection.{
  is_bad_collection, is_blocked, any_of, has_bad_amounts, has_repeated_seller, sorted_rows,
  collect_now, record_cod_collection,
}
use drip_marketplace.Payments.Collection.Collected.{
  Recorded, SettlesOrder, record_cod_collection-Recorded,
}
use drip_marketplace.Tests.{shop, order}

-- Of 2,200.02 rupees, 1,500 are refunded; the rest is asked for.
abbrev rest : RefundRequest
rest = record {
  idempotency_key = some (49 ∷ 50 ∷ []);
  amount = 70002;
  reason = 115 ∷ 105 ∷ 122 ∷ 101 ∷ [];
  expected_remaining = some 70002;
}

shop-RefundBooks : RefundBooks shop
unfolding lookup total
shop-RefundBooks = record {
  covered = λ k p found. elim (Bool-cases (1 == k)) [
    | inl same ↦ ground arith
    | inr other ↦ absurd (ground arith)
  ];
  refunds_fresh = ground arith;
}

refund-Requested_example :
    Ends (λ _ db'. RefundRequested 1 rest shop db') AnyError (refund 1 rest none shop)
refund-Requested_example = refund-Requested 1 rest none shop shop-RefundBooks

-- The whole payment is asked for then.
whole_payment : Ends (λ _ db'. total_refunded 1 db' ≡ 220002) Never (refund 1 rest none shop)
unfolding refund request_new lookup insert total find_refund same_optional same_text
whole_payment = refl

refund_retry_example :
    Ends (λ id db'. refund 1 rest none db' ≡ ok id db') AnyError (refund 1 rest none shop)
refund_retry_example = refund_retry 1 (49 ∷ 50 ∷ []) rest none shop refl (ground arith) (tt, tt)

-- Order 1 is paid in cash on delivery: a shirt of each of two sellers, 20 rupees less and 200 for the way.
abbrev cash_order : Order
cash_order = record order {
  payment_method = PaymentMethod.cod;
  items =
      record {
        seller_id = 7;
        variant_id = 40;
        unit_price = 100001;
        quantity = 1;
        subtotal = 100001;
      }
      ∷ record {
        seller_id = 8;
        variant_id = 41;
        unit_price = 100001;
        quantity = 1;
        subtotal = 100001;
      }
      ∷ [];
}

abbrev cash_payment : Payment
cash_payment = record {
  status = PaymentStatus.pending;
  amount = 220002;
  currency = 80 ∷ 75 ∷ 82 ∷ [];
  method = 99 ∷ 111 ∷ 100 ∷ [];
  gateway_reference = none;
  paid_at = none;
}

abbrev cash_shop : Db
cash_shop = record shop {
  orders = (1, cash_order) ∷ [];
  payments = (1, cash_payment) ∷ [];
  refunds = [];
}

cash_shop-Books : Books cash_shop
unfolding lookup
cash_shop-Books = record { ledgers_valid = λ k l e. absurd (ground arith); allocations_valid = tt }

-- "RC-1"
abbrev slip : Text
slip = 82 ∷ 67 ∷ 45 ∷ 49 ∷ []

record_cod_collection-Recorded_example :
    Ends
      (λ _ db'.
        Recorded 1 slip db'
        × SettlesOrder 1 cash_shop db'
        × (record_cod_collection 900 1 6 slip none false db' ≡ ok tt db'))
      AnyError
      (record_cod_collection 800 1 5 slip (some 220002) false cash_shop)
record_cod_collection-Recorded_example =
    record_cod_collection-Recorded 800 900 1 5 6 slip (some 220002) none false false cash_shop
      cash_shop-Books (omega arith)

-- It does go through.
goes_through :
    Ends (λ _ _. Unit {0}) Never (record_cod_collection 800 1 5 slip (some 220002) false cash_shop)
unfolding record_cod_collection is_bad_collection strip lstrip rstrip is_space any_char lookup
    modify same_text collect_now is_blocked any_of has_bad_amounts has_repeated_seller settle_every
    sorted_rows sort_by put_by settle settle_new apply_all credit_settlement insert commission_on
    div_half_up refresh_all
goes_through = tt
