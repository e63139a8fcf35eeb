-- ===== src/Fraud.antt =====
-- cmd/fraud-service.
pub mod Check
pub mod Velocity
pub mod Handler
pub mod Verdicts
