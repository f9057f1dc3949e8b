-- ===== src/Db.antt =====
-- db/repositories.py: each method is one transaction on the tables of the shared state.
pub mod Accounts
pub mod Records
pub mod Audit
pub mod Queries
pub mod Keys
