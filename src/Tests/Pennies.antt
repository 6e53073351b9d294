-- ===== src/Tests/Pennies.antt =====
-- A return whose refund is rounded up beyond its seller's part of the order (`_calculate_refund_amount` against
-- `_create_refund_accounting`).
use drip_marketplace.Prelude.{◌≡◌, refl, none, some, List, [], ◌∷◌, sort_by, put_by}
use drip_marketplace.Db.{
  Db, err, Order, Return, ReturnStatus, lookup, insert, modify, total, after,
  return_exceeds_merchandise,
}
use drip_marketplace.Commission.Refund.{
  resolve, has_unallocated, prior_merchandise, capacities, plan_return, plan,
  create_refund_accounting, ensure_accounting, reverse_for_refund,
}
use drip_marketplace.Money.{div_half_even}
use drip_marketplace.Texts.{strip, lstrip, rstrip, is_space, any_char, same_text, same_optional}
use drip_marketplace.Checkout.{Entry, allocate, proposed_share, bounded_share, merge_from, add_to}
use drip_marketplace.Payments.{refund, request_new, find_refund}
use drip_marketplace.Payments.Collection.{is_bad_collection}
use drip_marketplace.Payments.Confirm.{
  ConfirmReview, is_refund_blocked, add_returned, gather, prior_refunded, restock_entries,
  restock_all, restock_return, confirm_now, confirm_refund,
}
use drip_marketplace.Returns.{ReturnReview, is_other_return}
use drip_marketplace.Returns.Request.{find_item, has_repeated_item}
use drip_marketplace.Returns.Refund.{
  item_total, refund_amount, process_refund, request_refund, is_bad_request,
}
use drip_marketplace.Tests.{order, parcel, shop}

-- Three sellers sell a shirt for a rupee each, and the order has a paisa off: the last seller bears it.
abbrev split_discount : List Entry
split_discount = allocate 1 300 1 300 ((7, 100) ∷ (8, 100) ∷ (9, 100) ∷ [])

last_seller : split_discount ≡ (7, 100) ∷ (8, 100) ∷ (9, 99) ∷ []
unfolding allocate bounded_share proposed_share div_half_even
last_seller = refl

abbrev penny_order : Order
penny_order = record order {
  subtotal = 300;
  discount_amount = 1;
  total = 299;
  items =
      record { seller_id = 9; variant_id = 40; unit_price = 100; quantity = 1; subtotal = 100 }
      ∷ [];
}

abbrev received : Return
received = record {
  order_id = 1;
  seller_order_id = 23;
  user_id = some 5;
  status = ReturnStatus.received;
  notes = none;
  resolved_at = none;
  items = record { item = (1, 0); quantity = 1 } ∷ [];
  dispute = none;
}

-- The last seller's shirt is sent back.
abbrev pennies : Db
pennies = record shop {
  orders = (1, penny_order) ∷ [];
  seller_orders = (23, record (parcel 9) { subtotal = 99 }) ∷ [];
  returns = (60, received) ∷ [];
  refunds = [];
  next_id = 61;
}

abbrev seen : ReturnReview
seen = record {
  admin_note = none;
  expected_status = none;
  expected_notes = none;
  expected_refund_amount = some 100;
}

abbrev unchecked : ConfirmReview
unchecked = record { expected_amount = none; expected_payment = none; expected_return = none }

-- A refund of the whole rupee is requested, and no transfer can be recorded for it.
never_confirmed :
    confirm_refund 900 61 1
      (84 ∷ 88 ∷ 45 ∷ 49 ∷ [])
      unchecked
      (after (process_refund 60 seen) pennies)
    ≡ err return_exceeds_merchandise
unfolding process_refund request_refund is_other_return item_total find_item has_repeated_item
    refund_amount div_half_even is_bad_request refund find_refund request_new insert total lookup
    same_text same_optional strip lstrip rstrip is_space any_char confirm_refund is_bad_collection
    modify confirm_now is_refund_blocked restock_return gather restock_entries add_returned
    prior_refunded restock_all merge_from add_to sort_by put_by reverse_for_refund ensure_accounting
    create_refund_accounting resolve has_unallocated plan plan_return prior_merchandise capacities
never_confirmed = refl
