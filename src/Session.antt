-- ===== src/Session.antt =====
-- The iteration controller of iteration_controller.py: the session's records, how an iteration is
-- judged, and the two calls that change a session.
pub mod Records
pub mod Judge
pub mod Controller
pub mod Calls
pub mod Completion
pub mod Judged
pub mod Verdict
pub mod Bounded
