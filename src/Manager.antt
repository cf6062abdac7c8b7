-- ===== src/Manager.antt =====
-- core.py: the task manager, over the registry and the in-process runtimes.
pub mod State
pub mod Notices
pub mod Events
pub mod Verifier
pub mod Aborts
pub mod Watchdog
pub mod Report
pub mod Recovery
pub mod Start
pub mod Boot
pub mod Shutdown
pub mod Digest
pub mod Processes
pub mod Settlement
pub mod Finish
