-- ===== src/AiGuard.antt =====
-- internal/http/ai_abuse.go: what keeps a subject from a read by AI.
pub mod Breaker
pub mod Blocks
pub mod Fingerprint
