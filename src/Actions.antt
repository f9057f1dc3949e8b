-- ===== src/Actions.antt =====
-- actions/service.py: `ActionService`, an operation in each module, and what the modules after them prove.
pub mod Context
pub mod Drafts
pub mod Execute
pub mod Submit
pub mod Reads
pub mod Decide
pub mod Outcomes
pub mod Logging
pub mod Gate
pub mod Calls
pub mod Review
pub mod Stale
pub mod Reopened
pub mod Reading
pub mod Silence
pub mod SilentVerbs
pub mod SilentReview
pub mod DryRun
pub mod Keyed
pub mod Retry
