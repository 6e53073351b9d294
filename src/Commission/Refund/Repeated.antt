-- ===== src/Commission/Refund/Repeated.antt =====
-- `reverse_for_refund` a second time.
use mathlib.Core.Path.{subst}
use drip_marketplace.Prelude.{
  ℕ, ◌≡◌, refl, ap, ◌∙◌, inl, inr, Bool, true, false, not, ◌&&◌, some, none, List, [], ◌∷◌, arith,
  All, select, all, is_some, if◌then◌else◌, ◌==◌, ==→eq, Bool-cases,
}
use drip_marketplace.Db.{
  Db, ok, Ends, Ends-weaken, RefundAllocation, RefundAccounting, lookup, modify, lookup-modify_self,
  HasDistinctKeys, ◌>>◌,
}
use drip_marketplace.Commission.Ledger.{apply_allocation}
use drip_marketplace.Commission.Ledger.Charged.{Books}
use drip_marketplace.Commission.Settle.{
  AllocationRow, apply_all, refreshed, of_refund, after_refresh, refresh_refund_accounting,
}
use drip_marketplace.Commission.Settle.Loop.{Progress}
use drip_marketplace.Commission.Settle.Shares.{ChargesAll, AsksTooMuch, IsDone}
use drip_marketplace.Commission.Refund.{
  Target, pending_of_refund, ensure_accounting, reverse_for_refund,
}
use drip_marketplace.Commission.Refund.Reversed.{reverse_for_refund-Progress}

module _ {V : Type 0} where
  -- A row under a new key is found as it was.
  found_behind :
      (j : ℕ) (w : V) (whole rows : List (ℕ × V))
      → All (λ r. (j == r.0) ≡ false) rows
      → All (λ r. lookup r.0 whole ≡ some r.1) rows
      → All (λ r. lookup r.0 ((j, w) ∷ whole) ≡ some r.1) rows
  unfolding lookup
  found_behind j w whole [] apart h = tt
  found_behind j w whole (r ∷ rows) apart h =
      (rw apart.0 h.0, found_behind j w whole rows apart.1 h.1)

  -- When no two rows have the same key, every row is found by its key.
  rows_found : (t : List (ℕ × V)) → HasDistinctKeys t → All (λ r. lookup r.0 t ≡ some r.1) t
  unfolding lookup
  rows_found [] d = tt
  rows_found ((j, w) ∷ t) d = (ground arith, found_behind j w t t d.0 (rows_found t d.1))

  rest_of :
      (P : ℕ × V → Type 0) (q : ℕ × V → Bool) (r : ℕ × V) (t : List (ℕ × V))
      → All P (select q (r ∷ t))
      → All P (select q t)
  rest_of P q r t h = elim (Bool-cases (q r)) [
    | inl chosen ↦ (rw chosen at h).1
    | inr passed ↦ rw passed at h
  ]

  -- What holds of the chosen rows holds of a row that is found and would be chosen.
  All-lookup :
      (P : ℕ × V → Type 0) (q : ℕ × V → Bool) (k : ℕ) (v : V) (t : List (ℕ × V))
      → All P (select q t)
      → lookup k t ≡ some v
      → q (k, v) ≡ true
      → P (k, v)
  unfolding lookup
  All-lookup P q k v [] h found chosen = absurd (ground arith)
  All-lookup P q k v ((j, w) ∷ t) h found chosen = elim (Bool-cases (j == k)) [
    | inl same ↦
        let at_key : j ≡ k = ==→eq j k same in
        let value : w ≡ v = ground arith in
        let row : Path (ℕ × V) (j, w) (k, v) = λ i. (at_key i, value i) in
        let passes : q (j, w) ≡ true = ap q row ∙ chosen in subst P row (rw passes at h).0
    | inr other ↦ All-lookup P q k v t (rest_of P q (j, w) t h) (rw other at found) chosen
  ]

  All-select :
      (P Q : ℕ × V → Type 0) (q : ℕ × V → Bool) (t : List (ℕ × V))
      → ((r : ℕ × V) → q r ≡ true → P r → Q r)
      → All P t
      → All Q (select q t)
  All-select P Q q [] step h = tt
  All-select P Q q (r ∷ t) step h = elim (Bool-cases (q r)) [
    | inl chosen ↦ rw chosen (step r chosen h.0, All-select P Q q t step h.1)
    | inr passed ↦ rw passed (All-select P Q q t step h.1)
  ]

-- A share that waits for a settlement.
abbrev IsIdle : Db → AllocationRow → Type 0
IsIdle db row =
    (is_some row.1.applied_at ≡ false) × (lookup row.1.seller_order_id db.ledgers ≡ none)

apply_all-IsIdle :
    (now : ℕ) (rows : List AllocationRow) (db : Db)
    → All (IsIdle db) rows
    → apply_all now false rows db ≡ ok tt db
unfolding apply_all apply_allocation
apply_all-IsIdle now [] db h = refl
apply_all-IsIdle now ((id, a) ∷ rows) db h =
    rw (◌>>◌, h.0.0, h.0.1) (apply_all-IsIdle now rows db h.1)

module _ (refund_id : ℕ) (db t : Db) (c : ChargesAll (pending_of_refund refund_id db) db t) where
  abbrev is_pending : AllocationRow → Bool
  is_pending row = row.1.refund_id == refund_id && not (is_some row.1.applied_at)

  pending-IsIdle :
      (r : AllocationRow) → is_pending r ≡ true → lookup r.0 t.allocations ≡ some r.1 → IsIdle t r
  pending-IsIdle (id, a) pending found =
      let waits : is_some a.applied_at ≡ false = ground arith in
      let before : lookup id db.allocations ≡ some a = c.waiting id a found waits in
      let done : IsDone db t (id, a) =
        All-lookup (IsDone db t) is_pending id a db.allocations c.shares before pending in
      (
        waits,
        elim done [
          | inl is_charged ↦
              let eq : is_charged.0 ≡ a = ground (arith, found, is_charged.1) in
              absurd (
                ground (
                  arith,
                  waits,
                  is_charged.2,
                  ap (λ (x : RefundAllocation). is_some x.applied_at) eq,
                ))
          | inr otherwise ↦ elim otherwise [
            | inl applied ↦ absurd (ground (arith, waits, applied))
            | inr absent ↦ c.none_new a.seller_order_id absent
          ]
        ],
      )

-- The same totals, and the time of this run if the refund is reconciled.
abbrev pub dated : ℕ → RefundAccounting → RefundAccounting
dated now a = record a { reconciled_at = if is_some a.reconciled_at then some now else none }

refreshed-dated :
    (now later : ℕ) (rows : List AllocationRow) (a : RefundAccounting)
    → refreshed later rows (refreshed now rows a) ≡ dated later (refreshed now rows a)
refreshed-dated now later rows a =
    elim (Bool-cases (all (λ (r : AllocationRow). is_some r.1.applied_at) rows)) [
      | inl whole ↦ rw whole refl
      | inr part ↦ rw part refl
    ]

modify_after :
    (k : ℕ) (f g h : RefundAccounting → RefundAccounting) (t : List (ℕ × RefundAccounting))
    → ((a : RefundAccounting) → f (g a) ≡ h (g a))
    → modify k f (modify k g t) ≡ modify k h (modify k g t)
unfolding modify
modify_after k f g h [] same = refl
modify_after k f g h ((j, a) ∷ t) same = elim (Bool-cases (j == k)) [
  | inl here ↦ rw (here, if◌then◌else◌, here) (ap (λ x. (j, x) ∷ t) (same a))
  | inr other ↦
      rw (other, if◌then◌else◌, other) (ap (λ r. (j, a) ∷ r) (modify_after k f g h t same))
]

-- What a database is after a later run that finds nothing to charge.
abbrev pub redated : ℕ → ℕ → Db → Db
redated now refund_id db = record db { accountings = modify refund_id (dated now) db.accountings }

second_run :
    (now later refund_id amount : ℕ) (target : Target) (a : RefundAccounting) (db t : Db)
    → lookup refund_id t.accountings ≡ some a
    → HasDistinctKeys t.allocations
    → ChargesAll (pending_of_refund refund_id db) db t
    → reverse_for_refund later refund_id target amount (after_refresh now refund_id t)
      ≡ ok tt (redated later refund_id (after_refresh now refund_id t))
unfolding reverse_for_refund ensure_accounting refresh_refund_accounting
second_run now later refund_id amount target a db t found distinct c =
    let rows = of_refund refund_id t in
    let u = after_refresh now refund_id t in
    let kept : lookup refund_id u.accountings ≡ some (refreshed now rows a) =
      lookup-modify_self refund_id (refreshed now rows) a t.accountings found in
    let idle : All (IsIdle u) (pending_of_refund refund_id t) =
      All-select (λ r. lookup r.0 t.allocations ≡ some r.1) (IsIdle u) (is_pending refund_id db t c)
        t.allocations (pending-IsIdle refund_id db t c) (rows_found t.allocations distinct) in
    rw (kept, ◌>>◌)
      (rw (◌>>◌, apply_all-IsIdle later (pending_of_refund refund_id t) u idle)
        (ap (λ x. ok tt (record u { accountings = x }))
          (modify_after refund_id (refreshed later rows) (refreshed now rows) (dated later)
            t.accountings (refreshed-dated now later rows))))

-- On valid books, when a refund is written down and its reversal goes through, a second reversal of it, at any time
-- and whatever target and amount it is given, goes through and charges nothing: no table changes but the refund's
-- accounting, which keeps its totals, and if it is reconciled is dated anew.
pub reverse_twice :
    (now later refund_id amount other_amount : ℕ) (target other_target : Target)
    (a : RefundAccounting) (db : Db)
    → Books db
    → HasDistinctKeys db.allocations
    → lookup refund_id db.accountings ≡ some a
    → Ends
        (λ _ u.
          reverse_for_refund later refund_id other_target other_amount u
          ≡ ok tt (redated later refund_id u))
        (AsksTooMuch (pending_of_refund refund_id db) db)
        (reverse_for_refund now refund_id target amount db)
reverse_twice now later refund_id amount other_amount target other_target a db b distinct found =
    Ends-weaken
      (λ _ u.
        (t : Db) × Progress false db t
        × ChargesAll (pending_of_refund refund_id db) db t
        × (u ≡ after_refresh now refund_id t))
      (λ _ u.
        reverse_for_refund later refund_id other_target other_amount u
        ≡ ok tt (redated later refund_id u))
      (AsksTooMuch (pending_of_refund refund_id db) db)
      (AsksTooMuch (pending_of_refund refund_id db) db)
      (reverse_for_refund now refund_id target amount db)
      (reverse_for_refund-Progress now refund_id amount target a db b found)
      (λ _ u (t, p, c, e). rw e (
        second_run now later refund_id other_amount other_target a db t (rw p.frame found)
          (c.distinct distinct) c))
      (λ _ f. f)
