-- ===== src/Client/Scene.antt =====
-- What stands behind remote players in the game's scene.
pub mod Records
pub mod Driver
pub mod Contract
pub mod Backend
pub mod Updates
pub mod Stub
