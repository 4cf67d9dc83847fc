-- ===== src/Consent.antt =====
-- Which decision holds for a project: src/storage/consent-store.ts.
pub mod Decision
pub mod Closest
mod Examples
