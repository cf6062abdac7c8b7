-- ===== src/Registry.antt =====
-- registry_db.py: the durable registry, with one module per group of its methods.
pub mod Rows
pub mod Tasks
pub mod Events
pub mod Notifications
pub mod Wakes
pub mod Closed
