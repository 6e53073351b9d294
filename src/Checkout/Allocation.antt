-- ===== src/Checkout/Allocation.antt =====
-- An order's discount is divided over its sellers to the paisa.
use drip_marketplace.Prelude.{ℕ, ◌+◌, ◌-◌, ◌≤◌, ◌≡◌, List, [], ◌∷◌, arith, sum_of}
use drip_marketplace.Db.{OrderItem}
use drip_marketplace.Checkout.{
  Entry, add_to, lines_subtotal, seller_subtotals_from, proposed_share, bounded_share, allocate,
}

abbrev pub entry_amount : Entry → ℕ
entry_amount e = e.1

-- What each seller gets is within what it sells, seller by seller.
pub data Within : List Entry → List Entry → Type 0 where
  done : Within [] []
  next :
      {nets subs : List Entry} (seller : ℕ) {net sub : ℕ}
      → net ≤ sub
      → Within nets subs
      → Within ((seller, net) ∷ nets) ((seller, sub) ∷ subs)

-- The loop from any point on: all of the remaining discount is taken.
record Allocates (remaining : ℕ) (subs nets : List Entry) : Type 0 where
  whole : sum_of entry_amount nets + remaining ≡ sum_of entry_amount subs
  within : Within nets subs

-- A share fits, and what is left fits in the sellers that are left.
record FitsShare (rd rs sub share : ℕ) : Type 0 where
  within_sub : share ≤ sub
  within_discount : share ≤ rd
  rest_fits : rd - share ≤ rs

bounded_share-FitsShare :
    (rd rs sub share : ℕ) → rd ≤ sub + rs → FitsShare rd rs sub (bounded_share rd rs sub share)
unfolding bounded_share
bounded_share-FitsShare rd rs sub share h = ground arith

allocate-Allocates :
    (discount subtotal rd : ℕ) (subs : List Entry)
    → rd ≤ sum_of entry_amount subs
    → Allocates rd subs (allocate discount subtotal rd (sum_of entry_amount subs) subs)
unfolding allocate
allocate-Allocates discount subtotal rd [] h = record { whole = omega arith; within = Within.done }
allocate-Allocates discount subtotal rd ((seller, sub) ∷ rest) h =
    let rs = sum_of entry_amount rest in
    let share = bounded_share rd rs sub (proposed_share discount subtotal rd sub rest) in
    let f : FitsShare rd rs sub share =
      bounded_share-FitsShare rd rs sub (proposed_share discount subtotal rd sub rest) h in
    let tail : Allocates (rd - share) rest (allocate discount subtotal (rd - share) rs rest) =
      allocate-Allocates discount subtotal (rd - share) rest f.rest_fits in
    let cancel : sub + rs - sub ≡ rs = omega arith in
    rw cancel (record {
      whole = omega (arith, tail.whole, f);
      within = Within.next seller (omega arith) tail.within;
    })

pub sum_of-add_to :
    (key amount : ℕ) (entries : List Entry)
    → sum_of entry_amount (add_to key amount entries) ≡ sum_of entry_amount entries + amount
unfolding add_to
sum_of-add_to key amount [] = omega arith
sum_of-add_to key amount ((k, a) ∷ entries) = ground (arith, sum_of-add_to key amount entries)

sum_of-seller_subtotals :
    (lines : List OrderItem) (totals : List Entry)
    → sum_of entry_amount (seller_subtotals_from totals lines)
      ≡ sum_of entry_amount totals + lines_subtotal lines
unfolding seller_subtotals_from lines_subtotal
sum_of-seller_subtotals [] totals = omega arith
sum_of-seller_subtotals (line ∷ lines) totals = omega (
  arith,
  sum_of-seller_subtotals lines (add_to line.seller_id line.subtotal totals),
  sum_of-add_to line.seller_id line.subtotal totals,
)

-- The amounts that an order's sellers are owed add up to its merchandise less its discount, to the
-- paisa, and no seller is owed more than it sells.
pub allocate-exact :
    (discount : ℕ) (lines : List OrderItem)
    → discount ≤ lines_subtotal lines
    → (sum_of entry_amount (
            allocate discount
              (lines_subtotal lines)
              discount
              (lines_subtotal lines)
              (seller_subtotals_from [] lines))
          + discount
        ≡ lines_subtotal lines)
      × Within
          (allocate discount
            (lines_subtotal lines)
            discount
            (lines_subtotal lines)
            (seller_subtotals_from [] lines))
          (seller_subtotals_from [] lines)
allocate-exact discount lines h =
    let all_sold : sum_of entry_amount (seller_subtotals_from [] lines) ≡ lines_subtotal lines =
      omega (arith, sum_of-seller_subtotals lines []) in
    let a : Allocates discount (seller_subtotals_from [] lines) (
        allocate discount (lines_subtotal lines) discount (lines_subtotal lines)
          (seller_subtotals_from [] lines)) =
      rw all_sold at (
        allocate-Allocates discount (lines_subtotal lines) discount (seller_subtotals_from [] lines)
          (omega (arith, all_sold))) in
    (omega (arith, a.whole, all_sold), a.within)
