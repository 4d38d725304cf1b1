-- ===== src/Wire.antt =====
-- shared/protocol: byte-level reading and writing of packets.
pub mod Writer
pub mod Reader
pub mod Codes
pub mod Fields
pub mod Bounds
