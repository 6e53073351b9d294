-- ===== src/Commission.antt =====
-- Settlement of commission and refund accounting (services/commission_service.py).
pub mod Split
pub mod Debit
pub mod Ledger
pub mod Settle
pub mod Release
pub mod Refund
