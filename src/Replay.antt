-- ===== src/Replay.antt =====
-- taintforge_env/replay_store.py: requests with recorded responses. SHA-256, the fingerprint of a
-- request, `ipaddress`, `int(text, 16)` and the clock are parameters.
pub mod Request
pub mod Store
pub mod Normal
pub mod Reload
pub mod Parsed
pub mod Added
pub mod Refined
pub mod Unreadable
