-- ===== src/Client.antt =====
-- The plugin: plugin/src.
pub mod Table
pub mod Records
pub mod Runtime
pub mod Events
pub mod Scene
pub mod Policy
pub mod Manager
pub mod Apply
pub mod Delivery
pub mod Link
pub mod Movement
pub mod Observer
pub mod Bridge
pub mod Startup
pub mod Dispatch
mod Examples
