-- ===== src/Commission/Settle/Shares.antt =====
-- What the charge of refund shares does to their ledgers and allocations, and the charge of one share.
use mathlib.Core.Path.{subst}
use drip_marketplace.Prelude.{
  ℕ, ◌+◌, ◌≤◌, ◌<◌, ◌≡◌, refl, sym, ap, ◌⊎◌, inl, inr, Bool, true, false, not, ◌&&◌, none, some,
  List, [], ◌∷◌, arith, ◌==◌, is_some, sum_of, All, if◌then◌else◌, Bool-cases, ==→eq,
}
use drip_marketplace.Db.{
  Db, CommissionLedger, Error, Ends, Ends-weaken, lookup, lookup-insert, lookup-insert_self, insert,
  HasDistinctKeys, HasDistinctKeys-store, allocation_exceeds_gross, RefundAllocation,
  net_gross_amount,
}
use drip_marketplace.Commission.Ledger.{apply_allocation, Charge, charge_ledger, charge_allocation}
use drip_marketplace.Commission.Ledger.Charged.{
  Books, ChargedBy, AppliedTo, IsTooLarge, apply_allocation-AppliedTo,
}
use drip_marketplace.Commission.Settle.{AllocationRow}
use drip_marketplace.Commission.Settle.Loop.{Progress, Progress-refl, ChargedBy-Progress}

-- What a share that is not charged yet asks of a seller order.
abbrev pub asked_of : ℕ → AllocationRow → ℕ
asked_of k row =
    if row.1.seller_order_id == k && not (is_some row.1.applied_at)
    then row.1.merchandise_amount
    else 0

abbrev pub asked : ℕ → List AllocationRow → ℕ
asked k rows = sum_of (asked_of k) rows

-- The stored share is charged.
abbrev pub IsCharged : ℕ → Db → Type 0
IsCharged id db =
    (a : RefundAllocation) × (lookup id db.allocations ≡ some a) × (is_some a.applied_at ≡ true)

-- A ledger before and after: this much of its gross is refunded, and that was there.
pub record Refunds (amount : ℕ) (l l' : CommissionLedger) : Type 0 where
  pub refunded : l'.refunded_gross_amount ≡ l.refunded_gross_amount + amount
  pub gross : l'.gross_amount ≡ l.gross_amount
  pub fits : amount ≤ net_gross_amount l

-- A share is charged afterwards, or has no ledger.
abbrev pub IsDone : Db → Db → AllocationRow → Type 0
IsDone db t row =
    IsCharged row.0 t
    ⊎ ((is_some row.1.applied_at ≡ true) ⊎ (lookup row.1.seller_order_id db.ledgers ≡ none))

-- Every ledger is refunded by exactly what the shares ask of it, no ledger comes up, and the shares are charged;
-- those that still wait are as they were.
pub record ChargesAll (rows : List AllocationRow) (db t : Db) : Type 0 where
  pub ledgers :
      (k : ℕ) (l : CommissionLedger)
      → lookup k db.ledgers ≡ some l
      → (l' : CommissionLedger) × (lookup k t.ledgers ≡ some l') × Refunds (asked k rows) l l'
  pub none_new : (k : ℕ) → lookup k db.ledgers ≡ none → lookup k t.ledgers ≡ none
  pub shares : All (IsDone db t) rows
  pub stay : (id : ℕ) → IsCharged id db → IsCharged id t
  pub waiting :
      (id : ℕ) (a : RefundAllocation)
      → lookup id t.allocations ≡ some a
      → is_some a.applied_at ≡ false
      → lookup id db.allocations ≡ some a
  pub distinct : HasDistinctKeys db.allocations → HasDistinctKeys t.allocations

-- The shares ask more of some ledger than it has left.
pub record AsksTooMuch (rows : List AllocationRow) (db : Db) (e : Error) : Type 0 where
  pub raised : e ≡ allocation_exceeds_gross
  pub seller_order_id : ℕ
  pub ledger : CommissionLedger
  pub found : lookup seller_order_id db.ledgers ≡ some ledger
  pub larger : net_gross_amount ledger < asked seller_order_id rows

abbrev pub Step : List AllocationRow → Bool → Db → Db → Type 0
Step rows offset db t = Progress offset db t × ChargesAll rows db t

-- Nothing is asked, and nothing changes.
pub idle-ChargesAll :
    (rows : List AllocationRow) (db : Db)
    → ((k : ℕ) (l : CommissionLedger) → lookup k db.ledgers ≡ some l → asked k rows ≡ 0)
    → All (IsDone db db) rows
    → ChargesAll rows db db
idle-ChargesAll rows db nothing done = record {
  ledgers = λ k l found. (
    l,
    found,
    record {
      refunded = omega (arith, nothing k l found);
      gross = refl;
      fits = omega (arith, nothing k l found);
    },
  );
  none_new = λ k e. e;
  shares = done;
  stay = λ id c. c;
  waiting = λ id a found open_still. found;
  distinct = λ d. d;
}

charged-ChargesAll :
    (now : ℕ) (offset : Bool) (id : ℕ) (a : RefundAllocation) (l : CommissionLedger) (c : Charge)
    (db t : Db)
    → is_some a.applied_at ≡ false
    → lookup a.seller_order_id db.ledgers ≡ some l
    → a.merchandise_amount ≤ net_gross_amount l
    → ChargedBy now offset id a l c db t
    → ChargesAll ((id, a) ∷ []) db t
charged-ChargesAll now offset id a l c db t waiting found fits h =
    let ledgers_path : t.ledgers ≡ insert a.seller_order_id (charge_ledger c l) db.ledgers =
      ap (λ (d : Db). d.ledgers) h.books in
    let shares_path : t.allocations
        ≡ insert id (charge_allocation now l.commission_rate c a) db.allocations =
      ap (λ (d : Db). d.allocations) h.books in
    record {
      ledgers = λ k m there. elim (Bool-cases (a.seller_order_id == k)) [
        | inl same ↦
            let m-eq : l ≡ m = ground (
              arith,
              found,
              subst (λ j. lookup j db.ledgers ≡ some m) (sym (==→eq a.seller_order_id k same))
                  there,
            ) in
            (
              charge_ledger c l,
              rw (ledgers_path, lookup-insert, same) refl,
              subst (λ x. Refunds (asked k ((id, a) ∷ [])) x (charge_ledger c l)) m-eq
                  (rw (same, waiting)
                    (record {
                      refunded = omega (arith, h.merchandise);
                      gross = refl;
                      fits = omega (arith, fits);
                    })),
            )
        | inr other ↦ (
          m,
          rw (ledgers_path, lookup-insert, other) there,
          rw other (record { refunded = omega arith; gross = refl; fits = omega arith }),
        )
      ];
      none_new = λ k e. elim (Bool-cases (a.seller_order_id == k)) [
        | inl same ↦ absurd (
            ground (
              arith,
              found,
              subst (λ j. lookup j db.ledgers ≡ none) (sym (==→eq a.seller_order_id k same)) e,
            ))
        | inr other ↦ rw (ledgers_path, lookup-insert, other) e
      ];
      shares = (
        inl (
          charge_allocation now l.commission_rate c a,
          rw (shares_path, lookup-insert_self) refl,
          refl,
        ),
        tt,
      );
      stay = λ k was. elim (Bool-cases (id == k)) [
        | inl same ↦ (
          charge_allocation now l.commission_rate c a,
          rw (shares_path, lookup-insert, same) refl,
          refl,
        )
        | inr other ↦ (was.0, rw (shares_path, lookup-insert, other) was.1, was.2)
      ];
      waiting = λ k b there open_still. elim (Bool-cases (id == k)) [
        | inl same ↦
            let eq : charge_allocation now l.commission_rate c a ≡ b = ground (
              arith,
              lookup-insert id k (charge_allocation now l.commission_rate c a) db.allocations,
              same,
              rw shares_path at there,
            ) in
            absurd
              (ground (arith, open_still, ap (λ (x : RefundAllocation). is_some x.applied_at) eq))
        | inr other ↦ ground (
          arith,
          lookup-insert id k (charge_allocation now l.commission_rate c a) db.allocations,
          other,
          rw shares_path at there,
        )
      ];
      distinct = λ d.
          rw shares_path (
            HasDistinctKeys-store id (charge_allocation now l.commission_rate c a) db.allocations
              d);
    }

pub apply_allocation-Step :
    (now : ℕ) (offset : Bool) (id : ℕ) (a : RefundAllocation) (db : Db)
    → Books db
    → Ends
        (λ _ t. Step ((id, a) ∷ []) offset db t)
        (IsTooLarge a db)
        (apply_allocation now offset id a db)
apply_allocation-Step now offset id a db b =
    Ends-weaken (AppliedTo now offset id a db) (λ _ t. Step ((id, a) ∷ []) offset db t)
      (IsTooLarge a db) (IsTooLarge a db) (apply_allocation now offset id a db)
      (apply_allocation-AppliedTo now offset id a db b) step (λ e h. h)
  where
    step :
        (done : Bool) (t : Db)
        → AppliedTo now offset id a db done t
        → Step ((id, a) ∷ []) offset db t
    step done t (AppliedTo.before applied _ same) = rw same (
      Progress-refl offset db b,
      idle-ChargesAll ((id, a) ∷ []) db (λ k l found. rw applied (ground arith))
          (inr (inl applied), tt),
    )
    step done t (AppliedTo.unsettled waiting absent _ same) = rw same (
      Progress-refl offset db b,
      idle-ChargesAll ((id, a) ∷ []) db
          (λ k l found. elim (Bool-cases (a.seller_order_id == k)) [
            | inl here ↦ absurd (
                ground (
                  arith,
                  absent,
                  subst (λ j. lookup j db.ledgers ≡ some l) (sym (==→eq a.seller_order_id k here))
                      found,
                ))
            | inr other ↦ rw other refl
          ])
          (inr (inr absent), tt),
    )
    step done t (AppliedTo.charged waiting l found fits _ (c, h)) = (
      ChargedBy-Progress now offset id a l c db t b found h,
      charged-ChargesAll now offset id a l c db t waiting found fits h,
    )
