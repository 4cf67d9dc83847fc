-- ===== src/Daemon/WorkQueue.antt =====
-- src/daemon/work-queue.ts: `Queue` has the class, `Laws` what holds of every order of arrivals and
-- completions.
pub mod Queue
pub mod Laws
mod Examples
