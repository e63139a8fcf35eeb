-- ===== src/Payment.antt =====
-- cmd/payment-service.
pub mod Model
pub mod Repository
pub mod Create
pub mod Atomicity
pub mod Process
pub mod Changes
pub mod Overlap
pub mod Stored
pub mod Keys
pub mod Outbox
pub mod Handler
pub mod Saga
pub mod Routes
