-- ===== src/Accounts.antt =====
-- accounts/service.py: `AccountService`. The proofs are in Accounts/Honesty and below.
pub mod Status
pub mod Identity
pub mod Service
pub mod Patch
pub mod Honesty
pub mod Administration
pub mod Patching
