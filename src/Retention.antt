-- ===== src/Retention.antt =====
-- The fixed live-memory retention policy: src/storage/live-memory-retention.ts. `Store` is what the policy
-- sees of the database, `Describe` decides which sessions may go, `Plan` which do, `Compare`
-- compares them, `Steps` has what is done to the database on the way, and `Run` carries a capture through.
pub mod Store
pub mod Describe
pub mod Compare
pub mod Plan
pub mod Steps
pub mod Run
pub mod Guards
pub mod Outcomes
pub mod Deferred
pub mod Evidence
pub mod Removals
pub mod Selecting
pub mod Trigger
mod Examples
