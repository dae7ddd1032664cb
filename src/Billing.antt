-- ===== src/Billing.antt =====
-- The credit ledger of internal/billing.
pub mod Data
pub mod Tx
pub mod Runs
pub mod Allowance
pub mod Ledger
pub mod Debit
pub mod Refund
pub mod Daily
pub mod Usage
pub mod Reservation
pub mod Settlement
pub mod Grants
pub mod Revocation
pub mod Tranches
pub mod Balance
pub mod Entitlements
