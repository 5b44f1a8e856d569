-- ===== src/Repair/Applier.antt =====
-- The repair applier of repair_applier.py: the guards of one guest path, the checks before the first
-- change, and the transaction with its rollback.
pub mod Guard
pub mod Rootfs
pub mod Tree
pub mod Preflight
pub mod Apply
pub mod Rollback
pub mod Created
pub mod Targets
pub mod Success
pub mod Touched
pub mod Asked
