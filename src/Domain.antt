-- ===== src/Domain.antt =====
-- domain/: the governed objects and the enumerations that the other parts share.
pub mod Enums
pub mod Json
pub mod Models
