-- ===== src/Tools.antt =====
-- src/tools: what the model may call on a device.
pub mod UrlGuard
pub mod Json
pub mod Schema
pub mod Write
pub mod Fields
pub mod Args
pub mod Registry
mod Tests
