-- ===== src/Cards.antt =====
-- Credit cards (internal/http/card_*.go): billing cycles, statements and EMI plans.
pub mod Calendar
pub mod Cycle
pub mod Match
pub mod Reconcile
pub mod Plan
pub mod Limit
pub mod Payment
