-- ===== src/Server.antt =====
-- server/: the REST surface over the services, the identity of a caller, and src/account_pool/errors.py
-- where it is mapped.
pub mod Views
pub mod Bodies
pub mod Routes
pub mod Rest
pub mod Answers
pub mod Tools
pub mod Mcp
pub mod Inspection
pub mod Looking
pub mod Harmless
pub mod Access
pub mod Lifecycle
