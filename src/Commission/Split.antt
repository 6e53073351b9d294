-- ===== src/Commission/Split.antt =====
-- `_split_allocation`: a refund that is not tied to one seller order is split over the seller orders in
-- proportion to the merchandise value that each has left, to the paisa.
pub mod Exact
use drip_marketplace.Prelude.{
  ℕ, ◌+◌, ◌-◌, ◌*◌, ◌≡◌, Bool, List, [], ◌∷◌, sum_of, select, arith, min, ltb, leb, if◌then◌else◌,
  ◌==◌, not,
}
use drip_marketplace.Money.{div_half_up}
use drip_marketplace.Db.{
  Tx, pure, raise, raise_if, ◌>>=◌, ◌>>◌, exceeds_merchandise, rounding_residual,
}

-- A seller order's identifier with an amount: a capacity, or a share.
abbrev pub Part : Type 0
Part = ℕ × ℕ

abbrev pub part_amount : Part → ℕ
part_amount p = p.1

-- The share of the seller order whose capacity is `capacity`; the last one takes what is left.
unfoldable pub share_of : ℕ → ℕ → ℕ → List Part → ℕ
share_of remaining_amount remaining_capacity capacity [] = remaining_amount
share_of remaining_amount remaining_capacity capacity (_ ∷ _) =
    min capacity (div_half_up (remaining_amount * capacity) remaining_capacity)

abbrev pub append_share : ℕ → ℕ → List Part → List Part
append_share so share result = if ltb 0 share then (so, share) ∷ result else result

-- The loop: the shares, and the amount that is left at the end. A share never exceeds the amount
-- that remains (`share_of-le`), so the difference is that of Python.
unfoldable pub split_loop : ℕ → ℕ → List Part → List Part × ℕ
split_loop remaining_amount remaining_capacity [] = ([], remaining_amount)
split_loop remaining_amount remaining_capacity ((so, capacity) ∷ rest) =
    let share = share_of remaining_amount remaining_capacity capacity rest in
    let (result, left) =
      split_loop (remaining_amount - share) (remaining_capacity - capacity) rest in
    (append_share so share result, left)

abbrev pub eligible : List Part → List Part
eligible capacities = select (λ p. ltb 0 p.1) capacities

unfoldable pub split_allocation : ℕ → List Part → Tx (List Part)
split_allocation amount capacities =
    let parts = eligible capacities in
    let (result, left) = split_loop amount (sum_of part_amount parts) parts in
    if amount == 0 then pure [] else (do
      raise_if (ltb (sum_of part_amount parts) amount) exceeds_merchandise
      raise_if (not (left == 0)) rounding_residual
      pure result)
