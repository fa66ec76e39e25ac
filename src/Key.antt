-- ===== src/Key.antt =====
-- Key material and the group of a network: src/key.
pub mod Group
