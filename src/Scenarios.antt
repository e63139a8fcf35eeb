-- ===== src/Scenarios.antt =====
-- Concrete runs: each theorem applied to data at which its hypotheses hold.
mod Codecs
mod Accounts
mod Payments
mod Audits
mod Keys
mod Breakers
mod Retries
mod Runs
mod Relays
mod Leaders
mod Windows
mod Messages
mod Seeds
mod Overlaps
mod Configs
