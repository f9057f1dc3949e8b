-- ===== src/Adapters.antt =====
-- adapters/: what the services see of a platform, and the adapters.
pub mod Interface
pub mod Fake
pub mod Xml
pub mod Net
pub mod Replay
pub mod Reddit
pub mod StatusIds
pub mod Mastodon
pub mod Bluesky
pub mod Twitter
pub mod Medium
pub mod Substack
pub mod Registry
pub mod DryRun
