-- ===== src/Net.antt =====
-- The connections to other nodes: src/net.
pub mod Pool
