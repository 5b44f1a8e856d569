-- ===== src/Target.antt =====
-- taintforge_env/target_state_oracle.py: the target-state specification, its JSON form, and its
-- evaluation on the evidence of a run. Python's `str.isalnum`, the canonical digest, `json.loads`
-- and the division of a text into lines are parameters. The texts of messages and summaries are
-- left out.
pub mod Equality
pub mod Spec
pub mod Parse
pub mod Checked
pub mod Accepted
pub mod Again
pub mod Roundtrip
pub mod Bounds
pub mod Sequence
pub mod Spans
pub mod Adjacent
pub mod Evidence
pub mod Oracle
pub mod Reached
