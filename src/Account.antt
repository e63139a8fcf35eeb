-- ===== src/Account.antt =====
-- cmd/account-service: the model, the repository, the service and its theorems.
pub mod Model
pub mod Repository
pub mod Service
pub mod Steps
pub mod Effect
pub mod Ledger
pub mod Funds
pub mod Success
pub mod Locked
pub mod Unlocked
pub mod RedisLock
pub mod Handler
pub mod Routes
pub mod RowLocks
pub mod Deadlock
