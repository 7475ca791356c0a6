-- ===== src/Chat.antt =====
-- The chat bounded context: backend/src/domain/chat, the OpenRouter client's shapes, and the
-- streams, tasks and endpoints that carry a turn.
pub mod Completion
pub mod ToolLoop
pub mod History
pub mod Events
pub mod Frames
pub mod Cursor
pub mod Stream
pub mod Turn
pub mod Entries
pub mod Client
pub mod Service
