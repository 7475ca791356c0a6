-- ===== src/Chat/ToolLoop.antt =====
-- The bounded tool loop of one turn, backend/src/domain/chat/services/tool_call_executor.py. The
-- async generator `ToolCallExecutor.run` is an action on what it has yielded so far, the
-- `completion_messages` that it mutates and its `content_segments`. The LLM client, the pydantic
-- validation of a tool's arguments and the tool handlers are parameters.
mod Defs
mod Loop
pub mod Rules
pub mod Stream
pub mod Visible
pub mod Protocol
pub mod Outcome
pub mod Totality
mod Tests
unfoldable pub use Defs.*
unfoldable pub use Loop.*
