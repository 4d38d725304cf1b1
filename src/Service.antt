-- ===== src/Service.antt =====
-- service/src: the host-authoritative service.
pub mod State
pub mod Zero
pub mod Slots
pub mod Store
pub mod Sessions
pub mod Relay
pub mod Quest
pub mod Dialogue
pub mod Floats
pub mod Geometry
pub mod Validation
pub mod Authority
pub mod Transport
pub mod Examples
