-- ===== src/Wallet/Note.antt =====
-- The note of a payout: what is accepted is what is stored, and it is stripped, short and clean.
use drip_marketplace.Prelude.{
  ◌≤◌, ◌≡◌, refl, ap, ◌∙◌, inl, inr, Bool, true, false, ◌&&◌, ◌||◌, Option, none, some, arith,
  length, Bool-cases,
}
use drip_marketplace.Db.{Db, ok, err, Text, Ends, ◌>>◌, bad_payout_note}
use drip_marketplace.Texts.{strip, is_blank, any_char}
use drip_marketplace.Texts.Strip.{strip_stable}
use drip_marketplace.Wallet.Decision.{
  is_bad_in_note, is_bad_note, payout_note, stripped, is_falsy, breaks_rule, or_none,
}

-- A note as it is stored: none, or a text that is not empty, stripped, short and without control
-- characters.
pub record IsCleanText (text : Text) : Type 0 where
  pub visible : is_blank text ≡ false
  pub short : length text ≤ 500
  pub printable : any_char is_bad_in_note text ≡ false
  pub trimmed : strip text ≡ text

abbrev pub IsCleanNote : Option Text → Type 0
IsCleanNote none = Unit
IsCleanNote (some text) = IsCleanText text

or_none-IsCleanNote :
    (text : Text) → is_bad_note text ≡ false → strip text ≡ text → IsCleanNote (or_none (some text))
unfolding is_bad_note
or_none-IsCleanNote text fine trim = elim (Bool-cases (is_blank text)) [
  | inl blank ↦ rw blank tt
  | inr visible ↦
      rw visible (record {
        visible = visible;
        short = ground arith;
        printable = ground arith;
        trimmed = trim;
      })
]

pub payout_note-accepted :
    (given : Option Text) (required : Bool) (db : Db)
    → (required && is_falsy (stripped given) || breaks_rule (stripped given)) ≡ false
    → payout_note given required db ≡ ok (or_none (stripped given)) db
unfolding payout_note
payout_note-accepted given required db good = rw (good, ◌>>◌) refl

pub payout_note-refused :
    (given : Option Text) (required : Bool) (db : Db)
    → (required && is_falsy (stripped given) || breaks_rule (stripped given)) ≡ true
    → payout_note given required db ≡ err bad_payout_note
unfolding payout_note
payout_note-refused given required db bad = rw (bad, ◌>>◌) refl

-- The stored form of an accepted text is accepted, and stored as it is.
payout_note-again :
    (note : Text) (required : Bool) (db : Db)
    → (required && is_blank (strip note) || is_bad_note (strip note)) ≡ false
    → payout_note (or_none (some (strip note))) required db ≡ ok (or_none (some (strip note))) db
payout_note-again note required db good = elim (Bool-cases (is_blank (strip note))) [
  | inl blank ↦
      let optional : (required && true || false) ≡ false = ground arith in
      rw blank (payout_note-accepted none required db optional)
  | inr visible ↦
      let same : or_none (stripped (some (strip note))) ≡ some (strip note) =
        rw (strip_stable note, visible) refl in
      let good' : (required && is_blank (strip (strip note)) || is_bad_note (strip (strip note)))
          ≡ false =
        rw (strip_stable note) good in
      rw visible
        (payout_note-accepted (some (strip note)) required db good' ∙ ap (λ t. ok t db) same)
]

-- Every note is either refused, or stored in a clean form; and the stored form, given again, is accepted
-- as it is.
pub payout_note-IsCleanNote :
    (note : Option Text) (required : Bool) (db : Db)
    → Ends
        (λ text db'. (db' ≡ db) × IsCleanNote text × (payout_note text required db ≡ ok text db))
        (λ e. e ≡ bad_payout_note)
        (payout_note note required db)
unfolding payout_note
payout_note-IsCleanNote none true db = refl
payout_note-IsCleanNote none false db = (refl, tt, refl)
payout_note-IsCleanNote (some note) required db =
    elim (Bool-cases (required && is_blank (strip note) || is_bad_note (strip note))) [
      | inl bad ↦ rw (bad, ◌>>◌, Ends) refl
      | inr good ↦
          rw (good, ◌>>◌, Ends)
            (
              refl,
              or_none-IsCleanNote (strip note) (ground arith) (strip_stable note),
              payout_note-again note required db good,
            )
    ]
