-- ===== src/System.antt =====
-- The payment service, the account service and the audits on one database: what the payment service
-- needs of the account service, that it has it, and what holds after any run of both.
pub mod Contract
pub mod Books
pub mod Announcements
pub mod History
pub mod Events
pub mod Runs
pub mod Overlaps
pub mod Interleavings
pub mod Repeats
