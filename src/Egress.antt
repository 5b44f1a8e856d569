-- ===== src/Egress.antt =====
-- Which destinations a brokered run may reach: network_modes.py and egress_policy.py.
pub mod Modes
pub mod Policy
pub mod Decision
pub mod Resolved
