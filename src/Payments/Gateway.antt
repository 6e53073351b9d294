-- ===== src/Payments/Gateway.antt =====
-- What a reply of the payment gateway says (`_provider_outcome`, `_provider_money_matches` and the reading of
-- the reply in `reconcile_payfast` of services/payment_service.py). The gateway itself is a parameter.
pub mod Reconcile
pub mod Checkout
pub mod Retry
pub mod Callback
pub mod Paid
pub mod ByRight
pub mod Evidence
pub mod Owners
pub mod Reconciled
pub mod Proven
pub mod Due
pub mod Words
pub mod Pays
pub mod Started
pub mod Renewed
pub mod Notified
pub mod History
use drip_marketplace.Prelude.{
  ℕ, zero, suc, ◌*◌, Bool, true, false, not, ◌&&◌, ◌||◌, Option, none, some, List, [], ◌∷◌, ◌++◌,
  ◌-◌, ltb, ◌==◌, is_some, if◌then◌else◌,
}
use drip_marketplace.Db.{Text}
use drip_marketplace.Texts.{strip, is_blank, between, same_text}

-- A JSON value that is not null: a string, or another value with its truth and its `str`.
pub data Value : Type 0 where
  string : Text → Value
  other : Bool → Text → Value

abbrev pub str : Value → Text
str (Value.string text) = text
str (Value.other _ text) = text

abbrev pub is_true : Value → Bool
is_true (Value.string text) = not (is_blank text)
is_true (Value.other truth _) = truth

-- A decimal number that was read from text: whether it is negative, its digits, and how many of them are
-- decimals.
pub data Number : Type 0 where
  not_finite : Number
  finite : Bool → ℕ → ℕ → Number

-- The keys of a reply, in lower case, that are read. For an amount the inner value is none when the text is no
-- number, for a currency when it is null.
pub record Reply : Type 0 where
  pub status_code : Option Value
  pub payment_status : Option Value
  pub status : Option Value
  pub code : Option Value
  pub basket_id : Option Value
  pub transaction_id : Option Value
  pub txnamt : Option (Option Number)
  pub amount : Option (Option Number)
  pub currency_code : Option (Option Value)
  pub currency : Option (Option Value)

-- `check_status` of the gateway, for a basket and a transaction; none when it cannot be asked or fails.
abbrev pub Gateway : Type 0
Gateway = Text → Text → Option Reply

-- Python's `str.upper` of one code point, as far as a word of ASCII letters and digits can tell: the other code
-- points whose capitals are ASCII letters are ß, ı, ſ and the ligatures of f and s.
unfoldable pub upper_char : ℕ → Text
upper_char c =
    if between 97 122 c
    then (c - 32) ∷ []
    else if c == 223
    then 83 ∷ 83 ∷ []
    else if c == 305
    then 73 ∷ []
    else if c == 383
    then 83 ∷ []
    else if c == 64256
    then 70 ∷ 70 ∷ []
    else if c == 64257
    then 70 ∷ 73 ∷ []
    else if c == 64258
    then 70 ∷ 76 ∷ []
    else if c == 64259
    then 70 ∷ 70 ∷ 73 ∷ []
    else if c == 64260
    then 70 ∷ 70 ∷ 76 ∷ []
    else if between 64261 64262 c
    then 83 ∷ 84 ∷ []
    else c ∷ []

unfoldable pub upper : Text → Text
upper [] = []
upper (c ∷ text) = upper_char c ++ upper text

unfoldable pub is_among : Text → List Text → Bool
is_among text [] = false
is_among text (word ∷ words) = same_text text word || is_among text words

-- "00", "000", "SUCCESS", "COMPLETED" and "PAID"
abbrev pub paid_words : List Text
paid_words =
    (48 ∷ 48 ∷ [])
    ∷ (48 ∷ 48 ∷ 48 ∷ [])
    ∷ (83 ∷ 85 ∷ 67 ∷ 67 ∷ 69 ∷ 83 ∷ 83 ∷ [])
    ∷ (67 ∷ 79 ∷ 77 ∷ 80 ∷ 76 ∷ 69 ∷ 84 ∷ 69 ∷ 68 ∷ [])
    ∷ (80 ∷ 65 ∷ 73 ∷ 68 ∷ [])
    ∷ []

-- "FAILED", "DECLINED", "CANCELLED" and "CANCELED"
abbrev pub failed_words : List Text
failed_words =
    (70 ∷ 65 ∷ 73 ∷ 76 ∷ 69 ∷ 68 ∷ [])
    ∷ (68 ∷ 69 ∷ 67 ∷ 76 ∷ 73 ∷ 78 ∷ 69 ∷ 68 ∷ [])
    ∷ (67 ∷ 65 ∷ 78 ∷ 67 ∷ 69 ∷ 76 ∷ 76 ∷ 69 ∷ 68 ∷ [])
    ∷ (67 ∷ 65 ∷ 78 ∷ 67 ∷ 69 ∷ 76 ∷ 69 ∷ 68 ∷ [])
    ∷ []

pub data Outcome : Type 0 where
  completed failed unknown : Outcome

abbrev pub outcome_code : Outcome → ℕ
outcome_code Outcome.completed = 0
outcome_code Outcome.failed = 1
outcome_code Outcome.unknown = 2

abbrev pub same_outcome : Outcome → Outcome → Bool
same_outcome a b = outcome_code a == outcome_code b

-- `_provider_outcome`
unfoldable pub provider_outcome : Text → Outcome
provider_outcome status =
    if is_among (upper status) paid_words
    then Outcome.completed
    else if is_among (upper status) failed_words
    then Outcome.failed
    else Outcome.unknown

abbrev pub or_value : Option Value → Text → Text
or_value none text = text
or_value (some v) text = if is_true v then str v else text

-- "unknown"
abbrev pub unknown_status : Text
unknown_status = 117 ∷ 110 ∷ 107 ∷ 110 ∷ 111 ∷ 119 ∷ 110 ∷ []

abbrev pub provider_status : Reply → Text
provider_status reply = strip (
    or_value reply.status_code
      (or_value reply.payment_status (or_value reply.status (or_value reply.code unknown_status))))

-- A status counts when it is not null and not blank.
abbrev pub add_outcome : Option Value → List Outcome → List Outcome
add_outcome none outcomes = outcomes
add_outcome (some v) outcomes =
    if is_blank (strip (str v)) then outcomes else provider_outcome (strip (str v)) ∷ outcomes

abbrev pub outcomes_of : Reply → List Outcome
outcomes_of reply =
    add_outcome reply.status_code
      (add_outcome reply.payment_status (add_outcome reply.status (add_outcome reply.code [])))

unfoldable pub is_any_other : Outcome → List Outcome → Bool
is_any_other outcome [] = false
is_any_other outcome (o ∷ outcomes) = not (same_outcome o outcome) || is_any_other outcome outcomes

abbrev pub is_ambiguous : List Outcome → Bool
is_ambiguous [] = false
is_ambiguous (outcome ∷ outcomes) = is_any_other outcome outcomes

-- The outcome of "AMBIGUOUS" is unknown.
unfoldable pub reply_outcome : Reply → Outcome
reply_outcome reply =
    if is_ambiguous (outcomes_of reply)
    then Outcome.unknown
    else provider_outcome (provider_status reply)

abbrev pub text_of : Option Value → Text
text_of v = strip (or_value v [])

unfoldable pub ten_to : ℕ → ℕ
ten_to zero = 1
ten_to (suc n) = 10 * ten_to n

-- The number is positive and is this many hundredths.
unfoldable pub is_amount : ℕ → Option Number → Bool
is_amount amount none = false
is_amount amount (some Number.not_finite) = false
is_amount amount (some (Number.finite negative digits decimals)) =
    not negative && (ltb 0 digits && digits * 100 == amount * ten_to decimals)

unfoldable pub is_currency : Text → Option Value → Bool
is_currency currency (some (Value.string text)) = same_text (upper (strip text)) currency
is_currency currency _ = false

-- Two keys of which at least one is there, and all that are there pass.
abbrev pub passes : {A : Type 0} → (A → Bool) → Option A → Bool
passes p none = true
passes p (some a) = p a

abbrev pub some_pass : {A : Type 0} → (A → Bool) → Option A → Option A → Bool
some_pass p a b = (is_some a || is_some b) && (passes p a && passes p b)

-- `_provider_money_matches`
unfoldable pub money_matches : Reply → ℕ → Text → Bool
money_matches reply amount currency =
    some_pass (is_amount amount) reply.txnamt reply.amount
    && some_pass (is_currency currency) reply.currency_code reply.currency
