-- ===== src/Splits.antt =====
-- Shared groups, of internal/http/splits.go and internal/models/split.go.
pub mod Data
pub mod Frame
pub mod Ledger
