-- ===== src/Chat/ToolLoop/Defs.antt =====
-- The definitions of tool_call_executor.py: chunk aggregation, tool dispatch and the loop.
use fifa_world_cup_ai_agent.Prelude.{
  ℕ, String, Option, none, some, List, [], ◌∷◌, ◌++◌, Result, ok, err, if◌then◌else◌, truthy, join,
  ◌<>◌, str_eq,
}
use fifa_world_cup_ai_agent.Json.{Fields}
use fifa_world_cup_ai_agent.Chat.Completion.{
  FinishReason, ToolCall, ChatCompletionChunk, ChatCompletionResult, ToolLoopCapReached, Raised,
  request_failed,
}

abbrev pub max_iterations : ℕ
max_iterations = 5

abbrev pub clarification_request : String
clarification_request =
    "I wasn't able to fully resolve this with the available tools after several attempts -- could you clarify what you're looking for?"

pub record ToolWidgetResult : Type 0 where
  pub tool_call_id : String
  pub tool_name : String
  pub widget_type : String
  pub payload : Fields

-- One entry of `content_segments`, a `str | ToolWidgetResult`.
pub data Segment : Type 0 where
  text : String → Segment
  widget : ToolWidgetResult → Segment

-- `ChatCompletionResult | ToolLoopCapReached`
pub data TurnResult : Type 0 where
  completed : ChatCompletionResult → TurnResult
  capped : ToolLoopCapReached → TurnResult

pub data ToolLoopEvent : Type 0 where
  reasoning_delta content_delta tool_call_requested : String → ToolLoopEvent
  widget_ready : ToolWidgetResult → ToolLoopEvent
  turn_resolved : TurnResult → List Segment → ToolLoopEvent

-- One dict of `completion_messages`: a plain role and content, the assistant's request for tools,
-- or a tool's answer (`tool_call_id`, `name`, `content`).
pub data CompletionMessage : Type 0 where
  plain : String → String → CompletionMessage
  assistant_tool_calls : Option String → List ToolCall → CompletionMessage
  tool_result : String → String → String → CompletionMessage

-- `ToolExecutionResult` of tools/tool_execution_result.py: the text for the model, and the data of a widget.
pub record ToolExecution : Type 0 where
  pub content : String
  pub widget_data : Option Fields

-- `ToolDefinition`: `args_model.model_validate_json`, whose error is the text of the
-- `ValidationError`, the handler, and the widget's type.
pub record ToolDefinition (Args : Type 0) : Type 0 where
  pub validate : String → Result String Args
  pub handler : Args → Result Raised ToolExecution
  pub widget_type : Option String

-- The parts of an optional delta that are worth a word: `if chunk.delta_content:`.
abbrev pub present : Option String → List String
present none = []
present (some s) = if truthy s then s ∷ [] else []

abbrev pub or_else : {A : Type 0} → Option A → A → A
or_else none a = a
or_else (some b) a = b

abbrev pub or_keep : {A : Type 0} → Option A → Option A → Option A
or_keep none old = old
or_keep (some b) old = some b

pub record ChunkAggregator : Type 0 where
  pub content_parts : List String
  pub reasoning_parts : List String
  pub tool_calls : List ToolCall
  pub finish_reason : Option FinishReason
  pub model : Option String

abbrev pub fresh_aggregator : ChunkAggregator
fresh_aggregator = record {
  content_parts = [];
  reasoning_parts = [];
  tool_calls = [];
  finish_reason = none;
  model = none;
}

unfoldable pub absorb : ChatCompletionChunk → ChunkAggregator → ChunkAggregator
absorb chunk a = record {
  content_parts = a.content_parts ++ present chunk.delta_content;
  reasoning_parts = a.reasoning_parts ++ present chunk.delta_reasoning;
  tool_calls = or_else chunk.tool_calls a.tool_calls;
  finish_reason = or_keep chunk.finish_reason a.finish_reason;
  model = or_keep chunk.model a.model;
}

abbrev pub finish :
    Option FinishReason → Option String → ChunkAggregator → Result Raised ChatCompletionResult
finish (some reason) (some model) a = ok (record {
  content = join a.content_parts;
  reasoning = join a.reasoning_parts;
  tool_calls = a.tool_calls;
  finish_reason = reason;
  model = model;
})
finish _ _ a = err (request_failed none "Unexpected response shape")

unfoldable pub finalize : ChunkAggregator → Result Raised ChatCompletionResult
finalize a = finish a.finish_reason a.model a

unfoldable pub tool_result_message : ToolCall → String → CompletionMessage
tool_result_message call content = tool_result call.id call.name content

-- `result.content or None`
unfoldable pub assistant_tool_call_message : ChatCompletionResult → CompletionMessage
assistant_tool_call_message result =
    assistant_tool_calls (if truthy result.content then some result.content else none)
      result.tool_calls

-- The registry is a dict from names to definitions.
abbrev pub registry_get : {A : Type 0} → String → List (String × A) → Option A
registry_get name [] = none
registry_get name ((n, d) ∷ rest) = if str_eq n name then some d else registry_get name rest

abbrev pub widget_of : ToolCall → Option Fields → Option String → Option ToolWidgetResult
widget_of call (some payload) (some widget_type) = some (record {
  tool_call_id = call.id;
  tool_name = call.name;
  widget_type = widget_type;
  payload = payload;
})
widget_of call _ _ = none

abbrev pub dispatch :
    {Args : Type 0}
    → ToolCall
    → ToolDefinition Args
    → Result String Args
    → Result Raised (CompletionMessage × Option ToolWidgetResult)
dispatch call definition (err problem) =
    ok (tool_result_message call ("Invalid arguments for '" <> call.name <> "': " <> problem), none)
dispatch call definition (ok args) = elim (definition.handler args) [
  | err e ↦ err e
  | ok execution ↦ ok (
    tool_result_message call execution.content,
    widget_of call execution.widget_data definition.widget_type,
  )
]

abbrev pub known_or_reject :
    {Args : Type 0}
    → ToolCall
    → Option (ToolDefinition Args)
    → Result Raised (CompletionMessage × Option ToolWidgetResult)
known_or_reject call none =
    ok (tool_result_message call ("Unknown tool '" <> call.name <> "'."), none)
known_or_reject call (some definition) =
    dispatch call definition
      (definition.validate (if truthy call.arguments then call.arguments else "{}"))

unfoldable pub execute_tool_call :
    {Args : Type 0}
    → List (String × ToolDefinition Args)
    → ToolCall
    → Result Raised (CompletionMessage × Option ToolWidgetResult)
execute_tool_call registry call = known_or_reject call (registry_get call.name registry)
