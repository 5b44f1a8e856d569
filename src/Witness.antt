-- ===== src/Witness.antt =====
-- Concrete inputs at which the theorems with hypotheses are applied.
mod Applier
mod Plans
mod Attempts
mod Sessions
mod Policies
mod Targets
mod Replays
mod Runners
mod Packets
mod Extractions
mod Loops
