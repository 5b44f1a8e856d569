-- ===== src/Attempt.antt =====
-- taintforge_env/attempt.py: execution attempts, their contracts, results and their store.
pub mod Stages
pub mod Records
pub mod Store
pub mod Passage
