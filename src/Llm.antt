-- ===== src/Llm.antt =====
-- src/llm: the client of the language models.
pub mod UsageMeter
pub mod Retry
pub mod Messages
pub mod Conversation
pub mod Schema
pub mod Providers
pub mod Client
