-- ===== src/Init.antt =====
-- Onboarding that crosses two stores: src/cli/init-apply.ts with its journal,
-- src/config/init-apply-journal.ts, and the decisions of src/storage/consent-store.ts it writes.
-- `Stores` is what is written, `Recovery` resolves an
-- interrupted apply, `Atomic` has the points where one may stop.
pub mod Stores
pub mod Recovery
pub mod Roots
pub mod Undone
pub mod Committed
pub mod Atomic
mod Examples
