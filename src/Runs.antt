-- ===== src/Runs.antt =====
-- backend/app/routers/runs.py: the life of a run, one module for each handler.
pub mod Claim
pub mod Finish
pub mod Cancel
pub mod Log
pub mod View
