-- ===== src/Tests/Returns.antt =====
-- Returns, their disputes and refunds on the databases of Tests.
use drip_marketplace.Prelude.{
  ℕ, ◌≡◌, ◌≤◌, refl, true, none, some, List, [], ◌∷◌, ◌++◌, arith, sort_by, put_by,
}
use drip_marketplace.Db.{
  ok, Ends, Never, Db, Text, OrderItem, Refund, ReturnStatus, lookup, insert, modify, total,
}
use drip_marketplace.Commission.Refund.Allocated.{AnyError}
use drip_marketplace.Commission.Ledger.Charged.{Books}
use drip_marketplace.Commission.Ledger.{apply_allocation}
use drip_marketplace.Commission.Settle.{apply_all, refresh_refund_accounting}
use drip_marketplace.Commission.Refund.{
  resolve, has_unallocated, prior_merchandise, capacities, plan_return, plan, add_allocations,
  create_refund_accounting, ensure_accounting, reverse_for_refund,
}
use drip_marketplace.Money.{div_half_even}
use drip_marketplace.Texts.{strip, lstrip, rstrip, is_space, any_char, same_text}
use drip_marketplace.Checkout.{merge_from, add_to}
use drip_marketplace.Commission.Split.{split_allocation, split_loop, share_of}
use drip_marketplace.Payments.{refund, request_new, find_refund}
use drip_marketplace.Payments.Collection.{is_bad_collection}
use drip_marketplace.Payments.Confirm.{
  ConfirmReview, is_refund_blocked, add_returned, gather, prior_refunded, restock_entries,
  restock_all, restock_return, close_payment, confirm_now, confirm_refund,
}
use drip_marketplace.Payments.Confirm.Confirmed.{ConfirmEnds, confirm_refund-Confirmed}
use drip_marketplace.Returns.{
  ReturnReview, seller_reject_return, seller_return, mark_received, is_other_return,
}
use drip_marketplace.Returns.Request.{
  ReturnRequest, claimed, find_item, has_repeated_item, request_return, create_return,
  validate_items, validate_return_quantities,
}
use drip_marketplace.Returns.Claims.{purchased}
use drip_marketplace.Returns.Disputes.{
  DisputeReview, open_dispute, add_admin_message, is_other_dispute, resolve_dispute,
  resolve_for_customer,
}
use drip_marketplace.Returns.Refund.{
  item_total, refund_amount, process_refund, request_refund, is_bad_request,
}
use drip_marketplace.Returns.Steps.{ReturnBooks, view}
use drip_marketplace.Returns.History.{
  ReturnOp, run_return, run_returns, ReturnHistory, run_returns-ReturnHistory, run_returns-IsWithin,
}
use drip_marketplace.Tests.{order, shop, shelf}

abbrev shirts : ℕ → ℕ → OrderItem
shirts seller variant = record {
  seller_id = seller;
  variant_id = variant;
  unit_price = 100001;
  quantity = 1;
  subtotal = 100001;
}

-- Order 1 with a shirt of each of two sellers is delivered and paid, and nothing is refunded.
abbrev delivered : Db
delivered = record shop {
  orders = (1, record order { items = shirts 7 40 ∷ shirts 8 41 ∷ [] }) ∷ [];
  refunds = [];
}

delivered-Books : Books delivered
unfolding lookup
delivered-Books = record { ledgers_valid = λ k l e. absurd (ground arith); allocations_valid = tt }

delivered-ReturnBooks : ReturnBooks delivered
unfolding lookup claimed
delivered-ReturnBooks = record {
  fresh = tt;
  distinct = tt;
  items_distinct = λ k r e. absurd (ground arith);
  within = λ id. omega arith;
}

-- The customer sends the shirt of seller 7 back.
abbrev back : ReturnRequest
back = record {
  seller_order_id = 21;
  items = record { item = (1, 0); quantity = 1 } ∷ [];
  notes = none;
}

abbrev seen : ReturnReview
seen = record {
  admin_note = none;
  expected_status = none;
  expected_notes = none;
  expected_refund_amount = none;
}

abbrev unread : DisputeReview
unread = record { expected_status = none; expected_message_count = none }

abbrev unchecked : ConfirmReview
unchecked = record { expected_amount = none; expected_payment = none; expected_return = none }

-- "TX-1"
abbrev transfer : Text
transfer = 84 ∷ 88 ∷ 45 ∷ 49 ∷ []

-- "Looks unworn"
abbrev verdict : Text
verdict = 76 ∷ 111 ∷ 111 ∷ 107 ∷ 115 ∷ 32 ∷ 117 ∷ 110 ∷ 119 ∷ 111 ∷ 114 ∷ 110 ∷ []

-- The seller rejects the return, the customer disputes it and is right, and the shirt is received and paid back.
-- A second request for the same shirt fails.
abbrev until_refund : List ReturnOp
until_refund =
    ReturnOp.request true 5 back
    ∷ ReturnOp.request true 5 back
    ∷ ReturnOp.seller_reject 60 7 none
    ∷ ReturnOp.dispute true 60 5 verdict
    ∷ ReturnOp.answer 60 1 verdict unread
    ∷ ReturnOp.resolve 60 1 verdict unread true
    ∷ ReturnOp.receive 60 seen
    ∷ ReturnOp.refund 60 seen
    ∷ []

abbrev story : List ReturnOp
story = until_refund ++ ReturnOp.confirm 900 61 1 transfer unchecked ∷ []

run_returns-ReturnHistory_example : ReturnHistory delivered (run_returns story delivered)
run_returns-ReturnHistory_example =
    run_returns-ReturnHistory story delivered delivered-ReturnBooks delivered-Books

run_returns-IsWithin_example :
    ((id : ℕ × ℕ) → claimed id none (run_returns story delivered).returns ≤ purchased id delivered)
    × ReturnBooks (run_returns story delivered)
    × Books (run_returns story delivered)
run_returns-IsWithin_example =
    run_returns-IsWithin story delivered delivered-ReturnBooks delivered-Books

-- A refund of a received return is waiting for its transfer.
abbrev waiting : Db
waiting = record delivered {
  returns =
      (
        60,
        record {
          order_id = 1;
          seller_order_id = 21;
          user_id = some 5;
          status = ReturnStatus.received;
          notes = none;
          resolved_at = none;
          items = record { item = (1, 0); quantity = 1 } ∷ [];
          dispute = none;
        },
      )
      ∷ [];
  refunds =
      (
        61,
        record {
          order_id = 1;
          return_id = some 60;
          amount = 100001;
          idempotency_key = none;
          reason = none;
          processed_at = none;
          gateway_ref = none;
          processed_by = none;
        },
      )
      ∷ [];
  next_id = 62;
}

waiting-Books : Books waiting
unfolding lookup
waiting-Books = record { ledgers_valid = λ k l e. absurd (ground arith); allocations_valid = tt }

confirm_refund-Confirmed_example :
    Ends
      (λ _ db'.
        ConfirmEnds 900 61 1 transfer waiting db'
        × (confirm_refund 901 61 2 transfer unchecked db' ≡ ok tt db'))
      AnyError
      (confirm_refund 900 61 1 transfer unchecked waiting)
confirm_refund-Confirmed_example =
    confirm_refund-Confirmed 900 901 61 1 2 transfer unchecked unchecked waiting waiting-Books

-- Up to the refund it does go through: a refund waits for its transfer.
is_requested :
    let db : Db = run_returns until_refund delivered in
    (view db 60 ≡ some ReturnStatus.received)
    × (total (λ (r : Refund). r.amount) db.refunds ≡ 100001)
unfolding run_returns run_return request_return create_return has_repeated_item
    validate_return_quantities validate_items claimed find_item sort_by put_by insert lookup modify
    seller_reject_return seller_return open_dispute add_admin_message is_other_dispute strip lstrip
    rstrip is_space any_char resolve_dispute resolve_for_customer mark_received is_other_return
    process_refund item_total refund_amount div_half_even request_refund is_bad_request refund
    find_refund request_new total same_text
is_requested = (refl, refl)

-- So does the confirmation, and the shirt is back on the shelf.
is_paid_back :
    Ends
      (λ _ db.
        (view db 60 ≡ some ReturnStatus.refunded)
        × (lookup 40 db.inventory ≡ some (record shelf { stock = 6 })))
      Never
      (confirm_refund 900 61 1 transfer unchecked waiting)
unfolding confirm_refund is_bad_collection strip lstrip rstrip is_space any_char lookup modify total
    same_text confirm_now is_refund_blocked restock_return gather restock_entries add_returned
    prior_refunded restock_all merge_from add_to sort_by put_by find_item reverse_for_refund
    ensure_accounting create_refund_accounting resolve has_unallocated plan plan_return
    prior_merchandise capacities split_allocation split_loop share_of add_allocations apply_all
    refresh_refund_accounting close_payment insert apply_allocation
is_paid_back = (refl, refl)
