-- ===== src/Commission/Settle/Charging.antt =====
-- The loop over refund shares charges every share that has a ledger, each once and in full.
use mathlib.Core.Path.{subst}
use drip_marketplace.Prelude.{
  ℕ, ◌≡◌, refl, ◌∙◌, inl, inr, Bool, true, none, some, List, [], ◌∷◌, arith, ◌==◌, All,
  Option-cases,
}
use drip_marketplace.Db.{
  Db, CommissionLedger, Error, Ends, Ends-then, Ends-weaken, lookup, RefundAllocation,
}
use drip_marketplace.Commission.Ledger.{apply_allocation}
use drip_marketplace.Commission.Ledger.Charged.{Books, IsTooLarge}
use drip_marketplace.Commission.Settle.{AllocationRow, apply_all}
use drip_marketplace.Commission.Settle.Loop.{Progress, Progress-refl, Progress-trans}
use drip_marketplace.Commission.Settle.Shares.{
  asked, Refunds, IsDone, ChargesAll, AsksTooMuch, Step, idle-ChargesAll, apply_allocation-Step,
}

-- A ledger of the later database was there before.
earlier_ledger :
    (rows : List AllocationRow) (k : ℕ) (m : CommissionLedger) (db t : Db)
    → ChargesAll rows db t
    → lookup k t.ledgers ≡ some m
    → (l : CommissionLedger) × (lookup k db.ledgers ≡ some l) × Refunds (asked k rows) l m
earlier_ledger rows k m db t c found = elim (Option-cases (lookup k db.ledgers)) [
  | inl absent ↦ absurd (ground (arith, c.none_new k absent, found))
  | inr (l, there) ↦
      let (l', later, r) = c.ledgers k l there in
      let eq : l' ≡ m = ground (arith, later, found) in
      (l, there, subst (λ x. Refunds (asked k rows) l x) eq r)
]

then-IsDone :
    (rows : List AllocationRow) (db t u : Db)
    → ((k : ℕ) → lookup k t.ledgers ≡ none → lookup k db.ledgers ≡ none)
    → All (IsDone t u) rows
    → All (IsDone db u) rows
then-IsDone [] db t u none_old h = tt
then-IsDone (row ∷ rows) db t u none_old (h, rest) = (
  elim h [
    | inl charged ↦ inl charged
    | inr open_or_absent ↦ elim open_or_absent [
      | inl before ↦ inr (inl before)
      | inr absent ↦ inr (inr (none_old row.1.seller_order_id absent))
    ]
  ],
  then-IsDone rows db t u none_old rest,
)

-- One share, and then the others.
module _ (row : AllocationRow) (rows : List AllocationRow) (db t : Db)
    (first : ChargesAll (row ∷ []) db t) where
  none_old : (k : ℕ) → lookup k t.ledgers ≡ none → lookup k db.ledgers ≡ none
  none_old k e = elim (Option-cases (lookup k db.ledgers)) [
    | inl absent ↦ absent
    | inr (l, found) ↦
        let (_, later, _) = first.ledgers k l found in absurd (ground (arith, later, e))
  ]

  ChargesAll-then : (u : Db) → ChargesAll rows t u → ChargesAll (row ∷ rows) db u
  ChargesAll-then u next = record {
    ledgers = λ k l found.
        let (m, there, r) = first.ledgers k l found in
        let (l', last, s) = next.ledgers k m there in
        (
          l',
          last,
          record {
            refunded = omega (arith, r.refunded, s.refunded);
            gross = s.gross ∙ r.gross;
            fits = omega (arith, r.refunded, r.gross, r.fits, s.fits);
          },
        );
    none_new = λ k e. next.none_new k (first.none_new k e);
    shares = (
      elim first.shares.0 [
        | inl charged ↦ inl (next.stay row.0 charged)
        | inr otherwise ↦ inr otherwise
      ],
      then-IsDone rows db t u none_old next.shares,
    );
    stay = λ k was. next.stay k (first.stay k was);
    waiting =
        λ k a there open_still. first.waiting k a (next.waiting k a there open_still) open_still;
    distinct = λ d. next.distinct (first.distinct d);
  }

  AsksTooMuch-then : (e : Error) → AsksTooMuch rows t e → AsksTooMuch (row ∷ rows) db e
  AsksTooMuch-then e f =
      let (l, found, r) = earlier_ledger (row ∷ []) f.seller_order_id f.ledger db t first f.found in
      record {
        raised = f.raised;
        seller_order_id = f.seller_order_id;
        ledger = l;
        found = found;
        larger = omega (arith, f.larger, r.refunded, r.gross, r.fits);
      }

IsTooLarge-asks :
    (id : ℕ) (a : RefundAllocation) (rows : List AllocationRow) (db : Db) (e : Error)
    → IsTooLarge a db e
    → AsksTooMuch ((id, a) ∷ rows) db e
IsTooLarge-asks id a rows db e f =
    let here : (a.seller_order_id == a.seller_order_id) ≡ true = ground arith in
    record {
      raised = f.raised;
      seller_order_id = a.seller_order_id;
      ledger = f.ledger;
      found = f.found;
      larger = rw (here, f.waiting) (omega (arith, f.larger));
    }

-- The loop charges every share that has a ledger, unless the shares together ask more of a ledger than it has
-- left; then it fails.
pub apply_all-ChargesAll :
    (now : ℕ) (offset : Bool) (rows : List AllocationRow) (db : Db)
    → Books db
    → Ends
        (λ _ t. Progress offset db t × ChargesAll rows db t)
        (AsksTooMuch rows db)
        (apply_all now offset rows db)
unfolding apply_all
apply_all-ChargesAll now offset [] db b =
    (Progress-refl offset db b, idle-ChargesAll [] db (λ k l found. refl) tt)
apply_all-ChargesAll now offset ((id, a) ∷ rows) db b =
    Ends-then (apply_allocation now offset id a) (λ _ t. Step ((id, a) ∷ []) offset db t)
      (λ _ t. Step ((id, a) ∷ rows) offset db t) (AsksTooMuch ((id, a) ∷ rows) db) db
      (apply_all now offset rows)
      (Ends-weaken (λ _ t. Step ((id, a) ∷ []) offset db t) (λ _ t. Step ((id, a) ∷ []) offset db t)
        (IsTooLarge a db) (AsksTooMuch ((id, a) ∷ rows) db) (apply_allocation now offset id a db)
        (apply_allocation-Step now offset id a db b) (λ _ _ h. h)
        (λ e f. IsTooLarge-asks id a rows db e f))
      (λ _ t (p, first).
        Ends-weaken (λ _ u. Step rows offset t u) (λ _ u. Step ((id, a) ∷ rows) offset db u)
          (AsksTooMuch rows t) (AsksTooMuch ((id, a) ∷ rows) db) (apply_all now offset rows t)
          (apply_all-ChargesAll now offset rows t p.books)
          (λ _ u (q, next).
            (Progress-trans offset db t u p q, ChargesAll-then (id, a) rows db t first u next))
          (λ e f. AsksTooMuch-then (id, a) rows db t first e f))
