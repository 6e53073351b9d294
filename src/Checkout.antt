-- ===== src/Checkout.antt =====
-- Checkout: prices, shipping and the division of a discount (services/order_service.py).
pub mod Allocation
use drip_marketplace.Prelude.{
  ℕ, ◌+◌, ◌-◌, ◌*◌, Bool, true, false, not, ◌&&◌, ◌||◌, Option, none, some, List, [], ◌∷◌, length,
  min, max, ltb, leb, ◌==◌, is_some, if◌then◌else◌,
}
use drip_marketplace.Money.{div_half_even}
use drip_marketplace.Db.{
  Tx, ok, pure, raise, raise_if, gets, or_raise, ◌>>=◌, ◌>>◌, Db, Settings, Variant,
  ProductInventory, OrderItem, SellerStatus, lookup, available_stock, checkout_quantities,
  items_unavailable, insufficient_stock,
}

-- A variant with a quantity, or a seller with an amount, in the order of a Python dict.
abbrev pub Entry : Type 0
Entry = ℕ × ℕ

-- `amounts[key] = amounts.get(key, 0) + amount`
unfoldable pub add_to : ℕ → ℕ → List Entry → List Entry
add_to key amount [] = (key, amount) ∷ []
add_to key amount ((k, a) ∷ entries) =
    if k == key then (k, a + amount) ∷ entries else (k, a) ∷ add_to key amount entries

-- `_merge_items`
unfoldable pub merge_from : List Entry → List Entry → List Entry
merge_from quantities [] = quantities
merge_from quantities ((variant_id, quantity) ∷ items) =
    merge_from (add_to variant_id quantity quantities) items

abbrev pub merge_items : List Entry → List Entry
merge_items items = merge_from [] items

-- `variant.price_override`, else the product's sale price, else its price.
abbrev pub unit_price : Variant → ℕ
unit_price variant = elim variant.price_override [
  | some price ↦ price
  | none ↦ elim variant.sale_price [ some price ↦ price | none ↦ variant.price ]
]

abbrev pub is_active_seller : SellerStatus → Bool
is_active_seller SellerStatus.active = true
is_active_seller _ = false

-- The WHERE clause of the variants' query.
abbrev pub is_offered : Variant → Bool
is_offered v =
    v.is_active
    && (v.is_published
        && (not v.admin_hidden && (not v.product_deleted && is_active_seller v.seller_status)))

abbrev pub offered : Option Variant → Bool
offered none = false
offered (some v) = is_offered v

unfoldable pub all_entries : (Entry → Bool) → List Entry → Bool
all_entries p [] = true
all_entries p (entry ∷ entries) = p entry && all_entries p entries

-- The quantities' rule.
unfoldable pub is_bad_quantities : List Entry → Bool
is_bad_quantities entries =
    length entries == 0
    || (ltb 100 (length entries)
        || not (all_entries (λ entry. leb 1 entry.1 && leb entry.1 100) entries))

abbrev pub in_stock : ℕ → Option ProductInventory → Bool
in_stock quantity none = false
in_stock quantity (some inv) = leb quantity (available_stock inv)

-- `_fetch_and_validate_variants`: the quantities, then the offers, then the stock of each.
unfoldable pub fetch_and_validate_variants : List Entry → Tx (Unit {0})
fetch_and_validate_variants entries = do
  raise_if (is_bad_quantities entries) checkout_quantities
  there ← gets (λ db. all_entries (λ entry. offered (lookup entry.0 db.variants)) entries)
  raise_if (not there) items_unavailable
  stocked ←
      gets (λ db. all_entries (λ entry. in_stock entry.1 (lookup entry.0 db.inventory)) entries)
  raise_if (not stocked) insufficient_stock

-- `_CheckoutLine`, as the order's item that it becomes.
abbrev pub checkout_line : Variant → Entry → OrderItem
checkout_line v entry = record {
  seller_id = v.seller_id;
  variant_id = entry.0;
  unit_price = unit_price v;
  quantity = entry.1;
  subtotal = unit_price v * entry.1;
}

abbrev pub line_of : Entry → Option Variant → List OrderItem → List OrderItem
line_of entry none lines = lines
line_of entry (some v) lines = checkout_line v entry ∷ lines

-- The lines of the validated variants, which are all there.
unfoldable pub checkout_lines : List Entry → Db → List OrderItem
checkout_lines [] db = []
checkout_lines (entry ∷ entries) db =
    line_of entry (lookup entry.0 db.variants) (checkout_lines entries db)

-- `subtotal` and `seller_subtotals`
unfoldable pub lines_subtotal : List OrderItem → ℕ
lines_subtotal [] = 0
lines_subtotal (line ∷ lines) = line.subtotal + lines_subtotal lines

unfoldable pub seller_subtotals_from : List Entry → List OrderItem → List Entry
seller_subtotals_from totals [] = totals
seller_subtotals_from totals (line ∷ lines) =
    seller_subtotals_from (add_to line.seller_id line.subtotal totals) lines

-- `_CheckoutCalculation`
pub record Calculation : Type 0 where
  pub lines : List OrderItem
  pub seller_subtotals : List Entry
  pub subtotal : ℕ
  pub shipping_fee : ℕ

abbrev pub shipping_for : Settings → ℕ → ℕ
shipping_for policy subtotal =
    if leb policy.free_shipping_threshold subtotal then 0 else policy.standard_shipping_fee

abbrev pub calculation : List Entry → Db → Calculation
calculation entries db =
    let lines = checkout_lines entries db in
    record {
      lines = lines;
      seller_subtotals = seller_subtotals_from [] lines;
      subtotal = lines_subtotal lines;
      shipping_fee = shipping_for db.settings (lines_subtotal lines);
    }

-- `_calculate_checkout`
unfoldable pub calculate_checkout : List Entry → Tx Calculation
calculate_checkout entries = do fetch_and_validate_variants entries; gets (calculation entries)

-- The proportional share of a seller, or all that is left for the last one. An order's subtotal is not 0
-- when it has a discount (a coupon's discount is at most the subtotal).
unfoldable pub proposed_share : ℕ → ℕ → ℕ → ℕ → List Entry → ℕ
proposed_share discount subtotal remaining_discount sub [] = remaining_discount
proposed_share discount subtotal remaining_discount sub (_ ∷ _) =
    div_half_even (discount * sub) subtotal

-- `max(0, remaining_discount - remaining_subtotal, min(share, sub, remaining_discount))`
unfoldable pub bounded_share : ℕ → ℕ → ℕ → ℕ → ℕ
bounded_share remaining_discount remaining_subtotal sub share =
    max (remaining_discount - remaining_subtotal) (min (min share sub) remaining_discount)

-- The loop over the sellers: what each has to sell less its share of the discount. A share is at most
-- what the seller sells (`allocate-Allocates`), so the difference is that of Python.
unfoldable pub allocate : ℕ → ℕ → ℕ → ℕ → List Entry → List Entry
allocate discount subtotal remaining_discount remaining_subtotal [] = []
allocate discount subtotal remaining_discount remaining_subtotal ((seller, sub) ∷ rest) =
    let share =
      bounded_share remaining_discount (remaining_subtotal - sub) sub
        (proposed_share discount subtotal remaining_discount sub rest) in
    (seller, sub - share)
    ∷ allocate discount subtotal (remaining_discount - share) (remaining_subtotal - sub) rest
