-- ===== src/Gateway.antt =====
-- cmd/api-gateway.
pub mod RateLimit
pub mod Windows
pub mod Middleware
pub mod Routes
pub mod Mux
pub mod Dispatch
