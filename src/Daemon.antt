-- ===== src/Daemon.antt =====
-- src/daemon: the failure window of the summarizer, the queue of ingestion jobs, the guard of transcripts
-- that cannot be read.
pub mod FailureWindow
pub mod WorkQueue
pub mod Readability
