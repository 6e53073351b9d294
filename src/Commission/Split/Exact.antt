-- ===== src/Commission/Split/Exact.antt =====
-- The split is exact: the shares add up to the amount, none exceeds its seller order's capacity, and
-- the residual check cannot fail.
use drip_marketplace.Prelude.{
  ℕ, ◌+◌, ◌-◌, ◌*◌, ◌≤◌, ◌<◌, ◌≡◌, refl, inl, inr, List, [], ◌∷◌, sum_of, arith, ltb, min, All,
  Bool-cases, ltb→lt, ==→eq, ◌==◌,
}
use drip_marketplace.Money.{div_half_up}
use drip_marketplace.Money.Rounding.{div_half_up-ge, div_half_up-le}
use drip_marketplace.Db.{Db, ok}
use drip_marketplace.Commission.Split.{
  Part, part_amount, share_of, append_share, split_loop, eligible, split_allocation,
}

-- The shares are those of some of the capacities, in order, each positive and within its capacity.
pub data Fits : List Part → List Part → Type 0 where
  done : Fits [] []
  skip :
      {shares capacities : List Part} {p : Part}
      → Fits shares capacities
      → Fits shares (p ∷ capacities)
  keep :
      {shares capacities : List Part} (so : ℕ) {share capacity : ℕ}
      → 0 < share
      → share ≤ capacity
      → Fits shares capacities
      → Fits ((so, share) ∷ shares) ((so, capacity) ∷ capacities)

-- A share is bounded above and below, so that what is left fits in the capacities that are left.
record Bounded (ra rc capacity share : ℕ) : Type 0 where
  within : share ≤ capacity
  le_amount : share ≤ ra
  fits : ra - share ≤ rc - capacity

-- The cross-multiplied form of: the proportional share leaves no more than the rest can take.
residual_fits :
    (ra rc capacity : ℕ) → capacity ≤ rc → ra ≤ rc → (ra - (rc - capacity)) * rc ≤ ra * capacity
residual_fits ra rc capacity h k = elim (Bool-cases (ltb (rc - capacity) ra)) [
  | inl more ↦
      go (rc - capacity) (ra - (rc - capacity)) (ground arith) (ground arith) (ground arith)
  | inr less ↦ ground arith
]
  where
    go :
        (d e : ℕ)
        → rc ≡ capacity + d
        → ra ≡ d + e
        → e ≤ capacity
        → (ra - (rc - capacity)) * rc ≤ ra * capacity
    go d e p q r = rw (p, q) (grind (arith))

rounded-Bounded :
    (ra rc capacity : ℕ)
    → 0 < capacity
    → capacity ≤ rc
    → ra ≤ rc
    → Bounded ra rc capacity (min capacity (div_half_up (ra * capacity) rc))
rounded-Bounded ra rc capacity pos le fits =
    let above : ra - (rc - capacity) ≤ div_half_up (ra * capacity) rc =
      div_half_up-ge (ra * capacity) rc (ra - (rc - capacity)) (omega arith)
        (residual_fits ra rc capacity le fits) in
    let below : div_half_up (ra * capacity) rc ≤ ra =
      div_half_up-le (ra * capacity) rc ra (omega arith) (grind arith) in
    omega arith

share_of-Bounded :
    (ra capacity : ℕ) (rest : List Part)
    → 0 < capacity
    → ra ≤ capacity + sum_of part_amount rest
    → Bounded ra
        (capacity + sum_of part_amount rest)
        capacity
        (share_of ra (capacity + sum_of part_amount rest) capacity rest)
unfolding share_of
share_of-Bounded ra capacity [] pos fits = omega arith
share_of-Bounded ra capacity (p ∷ rest) pos fits =
    rounded-Bounded ra (capacity + sum_of part_amount (p ∷ rest)) capacity pos (omega arith) fits

-- What the loop returns, from any point on.
record Exact (ra : ℕ) (parts : List Part) (r : List Part × ℕ) : Type 0 where
  none_left : r.1 ≡ 0
  adds_up : sum_of part_amount r.0 ≡ ra
  fits : Fits r.0 parts

append_share-Fits :
    (so share capacity : ℕ) (shares parts : List Part)
    → share ≤ capacity
    → Fits shares parts
    → Fits (append_share so share shares) ((so, capacity) ∷ parts)
append_share-Fits so share capacity shares parts h f = elim (Bool-cases (ltb 0 share)) [
  | inl some_left ↦ rw some_left (Fits.keep so (ltb→lt _ _ some_left) h f)
  | inr nothing ↦ rw nothing (Fits.skip f)
]

sum_of-append_share :
    (so share : ℕ) (shares : List Part)
    → sum_of part_amount (append_share so share shares) ≡ share + sum_of part_amount shares
sum_of-append_share so share shares = ground arith

split_loop-Exact :
    (parts : List Part) (ra : ℕ)
    → All (λ p. 0 < p.1) parts
    → ra ≤ sum_of part_amount parts
    → Exact ra parts (split_loop ra (sum_of part_amount parts) parts)
unfolding split_loop
split_loop-Exact [] ra pos h = record {
  none_left = omega arith;
  adds_up = omega arith;
  fits = Fits.done;
}
split_loop-Exact ((so, capacity) ∷ rest) ra pos h =
    let share = share_of ra (capacity + sum_of part_amount rest) capacity rest in
    let b : Bounded ra (capacity + sum_of part_amount rest) capacity share =
      share_of-Bounded ra capacity rest pos.0 h in
    let rest_exact : Exact (ra - share) rest
        (split_loop (ra - share) (sum_of part_amount rest) rest) =
      split_loop-Exact rest (ra - share) pos.1 (omega (arith, b)) in
    let cancel : capacity + sum_of part_amount rest - capacity ≡ sum_of part_amount rest =
      omega arith in
    rw cancel (record {
      none_left = rest_exact.none_left;
      adds_up = omega (
        arith,
        b,
        rest_exact.adds_up,
        sum_of-append_share so share (split_loop (ra - share) (sum_of part_amount rest) rest).0,
      );
      fits = append_share-Fits so share capacity _ rest b.within rest_exact.fits;
    })

eligible-All : (capacities : List Part) → All (λ p. 0 < p.1) (eligible capacities)
eligible-All [] = tt
eligible-All (p ∷ capacities) = elim (Bool-cases (ltb 0 p.1)) [
  | inl some_left ↦ rw some_left (ltb→lt _ _ some_left, eligible-All capacities)
  | inr nothing ↦ rw nothing (eligible-All capacities)
]

sum_of-eligible :
    (capacities : List Part)
    → sum_of part_amount (eligible capacities) ≡ sum_of part_amount capacities
sum_of-eligible [] = refl
sum_of-eligible (p ∷ capacities) = ground (arith, sum_of-eligible capacities)

Fits-under :
    {p : Part} {shares xs ys : List Part}
    → ((s : List Part) → Fits s xs → Fits s ys)
    → Fits shares (p ∷ xs)
    → Fits shares (p ∷ ys)
Fits-under f (Fits.skip g) = Fits.skip (f _ g)
Fits-under f (Fits.keep so pos le g) = Fits.keep so pos le (f _ g)

Fits-eligible :
    (capacities shares : List Part) → Fits shares (eligible capacities) → Fits shares capacities
Fits-eligible [] shares f = f
Fits-eligible (p ∷ capacities) shares f = elim (Bool-cases (ltb 0 p.1)) [
  | inl some_left ↦ Fits-under (Fits-eligible capacities) (rw some_left at f)
  | inr nothing ↦ Fits.skip (Fits-eligible capacities shares (rw nothing at f))
]

Fits-nil : (capacities : List Part) → Fits [] capacities
Fits-nil [] = Fits.done
Fits-nil (p ∷ capacities) = Fits.skip (Fits-nil capacities)

-- A split of an amount that the seller orders can take goes through and changes nothing in the
-- database: the shares add up to exactly the amount, each is positive, and each is within the
-- capacity of its seller order.
pub split_allocation-exact :
    (amount : ℕ) (capacities : List Part) (db : Db)
    → amount ≤ sum_of part_amount capacities
    → (shares : List Part) × (split_allocation amount capacities db ≡ ok shares db)
      × (sum_of part_amount shares ≡ amount)
      × Fits shares capacities
unfolding split_allocation
split_allocation-exact amount capacities db h =
    let parts = eligible capacities in
    let loop : Exact amount parts (split_loop amount (sum_of part_amount parts) parts) =
      split_loop-Exact parts amount (eligible-All capacities)
        (omega (arith, sum_of-eligible capacities)) in
    elim (Bool-cases (amount == 0)) [
      | inl zero ↦ ([], rw zero, omega (arith, ==→eq amount 0 zero), Fits-nil capacities)
      | inr positive ↦ (
        (split_loop amount (sum_of part_amount parts) parts).0,
        ground (arith, loop.none_left, sum_of-eligible capacities),
        loop.adds_up,
        Fits-eligible capacities _ loop.fits,
      )
    ]
