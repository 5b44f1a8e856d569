-- ===== src/Runner.antt =====
-- taintforge_env/prebuilt_runner.py: the execution claim of a prepared iteration, run_and_complete
-- and reset_safe_failure. What lies outside the claim (the run directory, the execution rootfs,
-- the session, the network) is a state of any type, on which the steps act.
pub mod Claim
pub mod Site
pub mod Run
pub mod Hoare
pub mod Once
pub mod Started
pub mod Reset
pub mod Calls
