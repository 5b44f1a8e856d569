-- ===== src/Dns.antt =====
-- taintforge_env/transparent_logger.py: DNS queries and their responses. A packet is the
-- list of its bytes; a label is kept as its bytes.
pub mod Packet
pub mod Echo
pub mod Answer
