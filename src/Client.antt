-- ===== src/Client.antt =====
-- client/: what a client keeps on its own machine.
pub mod Updates
pub mod LogUpload
