-- ===== src/Messages.antt =====
-- The structs of shared/protocol, one module for each header.
pub mod Types
pub mod Header
pub mod Control
pub mod Player
pub mod Actor
pub mod Combat
pub mod Workshop
pub mod Ui
