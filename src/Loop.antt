-- ===== src/Loop.antt =====
-- The loop of synthesis_loop.py over the iteration controller and the runner.
pub mod Run
pub mod Limits
