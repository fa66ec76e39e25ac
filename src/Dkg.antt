-- ===== src/Dkg.antt =====
-- The distributed key generation: src/dkg.
pub mod Status
pub mod Packet
pub mod Bundle
pub mod State
pub mod Validate
pub mod Transition
pub mod Signing
pub mod Store
pub mod Actions
pub mod Gate
pub mod Proto
pub mod Execution
