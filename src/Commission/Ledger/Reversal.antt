-- ===== src/Commission/Ledger/Reversal.antt =====
-- How a refund's share is divided between commission and seller, and the ledger's own books.
use drip_marketplace.Prelude.{ℕ, ◌+◌, ◌*◌, ◌≤◌, ◌≡◌, arith}
use drip_marketplace.Money.Rounding.{div_half_up-le}
use drip_marketplace.Db.{
  CommissionLedger, net_gross_amount, net_commission_amount, net_seller_amount,
}
use drip_marketplace.Commission.Ledger.{
  rate_scale, commission_on, reversal_split, Charge, charge_ledger,
}

-- The CHECK constraints of `commission_ledger`, and the two sums that the service keeps besides.
pub record IsValidLedger (l : CommissionLedger) : Type 0 where
  pub rate_le_one : l.commission_rate ≤ rate_scale
  pub amounts : l.commission_amount + l.seller_amount ≡ l.gross_amount
  pub commission_capped : l.reversed_commission_amount ≤ l.commission_amount
  pub seller_capped : l.reversed_seller_amount ≤ l.seller_amount
  pub refunded : l.reversed_commission_amount + l.reversed_seller_amount ≡ l.refunded_gross_amount
  pub met :
      l.recovered_seller_amount + l.settlement_offset_amount + l.platform_shortfall_amount
      ≡ l.reversed_seller_amount

pub commission_on-le : (amount rate : ℕ) → rate ≤ rate_scale → commission_on amount rate ≤ amount
unfolding commission_on
commission_on-le amount rate h =
    div_half_up-le (amount * rate) rate_scale amount (omega arith) (grind arith)

-- The two parts of a share, as the ledger can take them.
pub record Divides (merchandise : ℕ) (l : CommissionLedger) (parts : ℕ × ℕ) : Type 0 where
  pub whole : parts.0 + parts.1 ≡ merchandise
  pub commission_fits : parts.0 ≤ net_commission_amount l
  pub seller_fits : parts.1 ≤ net_seller_amount l

pub reversal_split-Divides :
    (merchandise : ℕ) (l : CommissionLedger)
    → IsValidLedger l
    → merchandise ≤ net_gross_amount l
    → Divides merchandise l (reversal_split merchandise l)
unfolding reversal_split
reversal_split-Divides merchandise l v h =
    ground (arith, commission_on-le merchandise l.commission_rate v.rate_le_one)

-- What a share comes to, when it is charged to the ledger.
pub record Settles (c : Charge) : Type 0 where
  pub seller_met : c.recovered + c.offset + c.shortfall ≡ c.seller_reversal
  pub whole : c.commission_reversal + c.seller_reversal ≡ c.merchandise

pub charge_ledger-IsValidLedger :
    (c : Charge) (l : CommissionLedger)
    → IsValidLedger l
    → c.commission_reversal ≤ net_commission_amount l
    → c.seller_reversal ≤ net_seller_amount l
    → Settles c
    → IsValidLedger (charge_ledger c l)
charge_ledger-IsValidLedger c l v hc hs s = omega arith
