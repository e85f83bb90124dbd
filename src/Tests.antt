-- ===== src/Tests.antt =====
-- Concrete requests and databases for the theorems.
pub mod Data
pub mod Runs
pub mod Jobs
pub mod Devices
pub mod Views
pub mod Plans
pub mod Machines
pub mod Uploads
pub mod Arrangements
