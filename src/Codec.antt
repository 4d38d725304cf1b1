-- ===== src/Codec.antt =====
-- shared/protocol/packet_codec.c: how each message is laid out on the wire.
pub mod Vectors
pub mod Rows
pub mod Bounds
pub mod Header
pub mod Control
pub mod Player
pub mod Actor
pub mod Combat
pub mod Workshop
pub mod Ui
mod Examples
