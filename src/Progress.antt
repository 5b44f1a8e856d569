-- ===== src/Progress.antt =====
-- taintforge_env/progress_oracle.py: what an iteration observed, and how two observations compare.
pub mod Events
pub mod Metrics
pub mod Compare
pub mod Verdicts
