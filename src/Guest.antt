-- ===== src/Guest.antt =====
-- The paths inside the guest root file system.
pub mod Paths
pub mod Prefixes
