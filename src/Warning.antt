-- ===== src/Warning.antt =====
-- Warnings of full live memory: src/storage/live-memory-warning.ts and the limits of
-- src/config/live-memory-retention.ts.
pub mod Schedule
pub mod Cadence
mod Examples
