-- ===== src/Payments/Gateway/Words.antt =====
-- A reply of the gateway that says that a payment is made, and what the checks find in it.
use drip_marketplace.Prelude.{
  ℕ, ◌*◌, ◌<◌, ◌≡◌, refl, ap, inl, inr, true, false, Option, none, some, List, [], ◌∷◌, All, arith,
  Bool-cases, ==→eq,
}
use drip_marketplace.Db.{Text, PaymentStatus}
use drip_marketplace.Texts.{is_space, lstrip, rstrip, strip, is_blank, same_text, same_optional}
use drip_marketplace.Payments.{pkr}
use drip_marketplace.Payments.Gateway.{
  Reply, Value, Number, Outcome, reply_outcome, text_of, provider_outcome, upper, upper_char,
  is_among, is_any_other, is_amount, is_currency, ten_to,
}
use drip_marketplace.Payments.Gateway.Reconcile.{PaymentRow, owners, is_paid}

-- The words that say that a payment is made.
pub data PaidWord : Type 0 where
  zeros three_zeros success completed paid : PaidWord

abbrev pub spelling : PaidWord → Text
spelling PaidWord.zeros = 48 ∷ 48 ∷ []
spelling PaidWord.three_zeros = 48 ∷ 48 ∷ 48 ∷ []
spelling PaidWord.success = 83 ∷ 85 ∷ 67 ∷ 67 ∷ 69 ∷ 83 ∷ 83 ∷ []
spelling PaidWord.completed = 67 ∷ 79 ∷ 77 ∷ 80 ∷ 76 ∷ 69 ∷ 84 ∷ 69 ∷ 68 ∷ []
spelling PaidWord.paid = 80 ∷ 65 ∷ 73 ∷ 68 ∷ []

-- "This many rupees are paid for this basket, in this transaction."
abbrev pub paid_reply : PaidWord → ℕ → Text → ℕ → ℕ → Reply
paid_reply word basket reference digits decimals = record {
  status_code = some (Value.string (spelling word));
  payment_status = none;
  status = none;
  code = none;
  basket_id = some (Value.string (basket ∷ []));
  transaction_id = some (Value.string reference);
  txnamt = some (some (Number.finite false digits decimals));
  amount = none;
  currency_code = some (some (Value.string pkr));
  currency = none;
}

pub same_text-eq : (s t : Text) → same_text s t ≡ true → s ≡ t
unfolding same_text
same_text-eq [] [] e = refl
same_text-eq [] (d ∷ t) e = absurd (ground arith)
same_text-eq (c ∷ s) [] e = absurd (ground arith)
same_text-eq (c ∷ s) (d ∷ t) e =
    let head : c ≡ d = ==→eq c d (ground arith) in
    let tail : s ≡ t = same_text-eq s t (ground arith) in rw (head, tail) refl

pub has_another :
    (reference : Text) (other : Option Text)
    → (other ≡ some reference → ⊥)
    → same_optional other (some reference) ≡ false
unfolding same_optional
has_another reference none h = refl
has_another reference (some text) h = elim (Bool-cases (same_text text reference)) [
  | inl same ↦ absurd (h (ap some (same_text-eq text reference same)))
  | inr apart ↦ apart
]

pub owners-nobody :
    (reference : Text) (rows : List PaymentRow)
    → All (λ (row : PaymentRow). row.1.gateway_reference ≡ some reference → ⊥) rows
    → owners reference rows ≡ []
unfolding owners
owners-nobody reference [] h = refl
owners-nobody reference ((j, p) ∷ rows) h =
    rw (has_another reference p.gateway_reference h.0) (owners-nobody reference rows h.1)

pub paid_outcome :
    (word : PaidWord) (basket : ℕ) (reference : Text) (digits decimals : ℕ)
    → reply_outcome (paid_reply word basket reference digits decimals) ≡ Outcome.completed
unfolding reply_outcome provider_outcome upper upper_char is_among same_text is_any_other strip
    lstrip rstrip is_space
paid_outcome PaidWord.zeros basket reference digits decimals = refl
paid_outcome PaidWord.three_zeros basket reference digits decimals = refl
paid_outcome PaidWord.success basket reference digits decimals = refl
paid_outcome PaidWord.completed basket reference digits decimals = refl
paid_outcome PaidWord.paid basket reference digits decimals = refl

pub strip_symbol : (c : ℕ) → is_space c ≡ false → strip (c ∷ []) ≡ c ∷ []
unfolding strip lstrip rstrip
strip_symbol c h = rw h (rw h refl)

pub text_of-string :
    (text : Text)
    → is_blank text ≡ false
    → strip text ≡ text
    → text_of (some (Value.string text)) ≡ text
text_of-string text named stripped = rw named stripped

pub currency_is : is_currency pkr (some (Value.string pkr)) ≡ true
unfolding is_currency same_text upper upper_char strip lstrip rstrip is_space
currency_is = refl

pub amount_is :
    (amount digits decimals : ℕ)
    → 0 < digits
    → digits * 100 ≡ amount * ten_to decimals
    → is_amount amount (some (Number.finite false digits decimals)) ≡ true
unfolding is_amount
amount_is amount digits decimals positive worth = ground arith

pub not_paid :
    (status : PaymentStatus)
    → (status ≡ PaymentStatus.completed → ⊥)
    → (status ≡ PaymentStatus.refunded → ⊥)
    → is_paid status ≡ false
not_paid PaymentStatus.pending c r = refl
not_paid PaymentStatus.processing c r = refl
not_paid PaymentStatus.completed c r = absurd (c refl)
not_paid PaymentStatus.failed c r = refl
not_paid PaymentStatus.refunded c r = absurd (r refl)
