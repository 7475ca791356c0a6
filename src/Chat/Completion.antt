-- ===== src/Chat/Completion.antt =====
-- The shapes of backend/src/infra/openrouter/schemas.py, and the exceptions that a turn may meet.
use fifa_world_cup_ai_agent.Prelude.{ℕ, String, Option, List}

pub data FinishReason : Type 0 where
  stop tool_calls length content_filter : FinishReason

pub record ToolCall : Type 0 where
  pub id : String
  pub name : String
  pub arguments : String

pub record ChatCompletionChunk : Type 0 where
  pub delta_content : Option String
  pub delta_reasoning : Option String
  pub tool_calls : Option (List ToolCall)
  pub finish_reason : Option FinishReason
  pub model : Option String
  pub cached_tokens : Option ℕ
  pub cache_write_tokens : Option ℕ

pub record ChatCompletionResult : Type 0 where
  pub content : String
  pub reasoning : String
  pub tool_calls : List ToolCall
  pub finish_reason : FinishReason
  pub model : String

pub record ToolLoopCapReached : Type 0 where
  pub partial_content : String
  pub clarification : String

-- An exception: `OpenRouterRequestFailed(status_code, detail)`, or any other by its class name and
-- its text.
pub data Raised : Type 0 where
  request_failed : Option ℕ → String → Raised
  other_error : String → String → Raised

-- One call of `create_chat_completion`, as its consumer sees it: the chunks that it yields, and the
-- exception that ends it early, if there is one.
pub record CompletionStream : Type 0 where
  pub chunks : List ChatCompletionChunk
  pub failure : Option Raised
