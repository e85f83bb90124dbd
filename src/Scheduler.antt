-- ===== src/Scheduler.antt =====
-- backend/app/scheduler.py: the periodic jobs of the server.
pub mod Cursor
pub mod Heartbeat
pub mod Scan
