-- ===== src/Daemon/Readability.antt =====
-- The guard of transcripts that cannot be read: src/daemon/readability-guard.ts.
pub mod Guard
pub mod Scanning
mod Examples
