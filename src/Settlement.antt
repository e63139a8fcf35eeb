-- ===== src/Settlement.antt =====
-- cmd/settlement-service: the reconciliation audits.
pub mod Floats
pub mod Reconciliation
pub mod Audits
pub mod Service
