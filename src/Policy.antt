-- ===== src/Policy.antt =====
-- policy/: the guard pipeline that every acting request passes.
pub mod Decisions
pub mod Policies
pub mod Promo
pub mod RateLimit
pub mod Trackers
pub mod Context
pub mod Guards
pub mod Engine
pub mod Frame
pub mod Chain
pub mod Facts
pub mod Admission
pub mod Votes
pub mod Tightening
pub mod Lifting
pub mod Window
pub mod Ratio
