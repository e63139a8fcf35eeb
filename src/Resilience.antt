-- ===== src/Resilience.antt =====
-- pkg/resilience/circuit_breaker.go.
pub mod Breaker
pub mod Retry
