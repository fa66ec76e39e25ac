-- ===== src/Chain.antt =====
-- The randomness chain: src/chain.
pub mod Beacon
pub mod Store
pub mod Epoch
pub mod Cache
pub mod Time
pub mod Sync
pub mod Info
pub mod Registry
pub mod Handler
pub mod Commands
pub mod Default
pub mod Life
