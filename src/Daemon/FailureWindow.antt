-- ===== src/Daemon/FailureWindow.antt =====
-- src/daemon/failure-window.ts: `Window` has the class, `Laws` what holds of it over any run.
pub mod Window
pub mod Laws
mod Examples
