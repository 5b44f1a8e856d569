-- ===== src/Repair.antt =====
-- Runtime requirements, the passive repair plan made of them, and its application to a rootfs.
pub mod Plan
pub mod Planner
pub mod Applier
pub mod Agreement
