-- ===== src/Outbox.antt =====
-- outbox.py: the notification outbox and its worker.
pub mod Target
pub mod Errors
pub mod Queue
pub mod Worker
