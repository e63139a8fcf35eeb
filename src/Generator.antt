-- ===== src/Generator.antt =====
-- scripts/generator/main.go: the seeder of the accounts, the payloads and the metrics of the load
-- generator, and the loop that waits for payments to settle.
pub mod Random
pub mod Seeding
pub mod Seeded
pub mod Load
pub mod Metrics
pub mod Verify
pub mod Waiting
pub mod Percentiles
pub mod Draw
