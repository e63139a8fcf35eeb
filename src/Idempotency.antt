-- ===== src/Idempotency.antt =====
-- pkg/idempotency/idempotency.go.
pub mod Manager
pub mod Keys
