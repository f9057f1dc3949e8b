-- ===== src/Tests.antt =====
-- A small pool, and runs of the program on it.
pub mod Fixtures
pub mod Guards
pub mod Trackers
pub mod Service
pub mod Leases
pub mod Accounts
pub mod Reviews
pub mod Networks
pub mod Requests
