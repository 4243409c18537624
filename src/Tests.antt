-- ===== src/Tests.antt =====
-- Runs of the definitions at concrete inputs.
pub mod Link
pub mod Noise
pub mod Handlers
pub mod Session
pub mod Managed
pub mod Errors
pub mod Wire
pub mod Stream
pub mod Refusal
pub mod Trust
pub mod Redact
pub mod Conversations
pub mod Control
pub mod Channel
