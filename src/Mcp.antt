-- ===== src/Mcp.antt =====
-- src/mcp: what a device offers to a host of the Model Context Protocol.
pub mod EdgeStore
pub mod Resources
pub mod Prompts
pub mod Server
