-- ===== src/Chat/ToolLoop/Loop.antt =====
-- `ToolCallExecutor.run` of tool_call_executor.py.
use fifa_world_cup_ai_agent.Prelude.{
  ℕ, zero, suc, String, Bool, true, false, Option, none, some, List, [], ◌∷◌, ◌++◌, map, not, ◌||◌,
  Result, ok, err, if◌then◌else◌, truthy, join,
}
use fifa_world_cup_ai_agent.Json.{Json}
use fifa_world_cup_ai_agent.Chat.Completion.{
  FinishReason, ToolCall, ChatCompletionChunk, ChatCompletionResult, Raised, CompletionStream,
}
use fifa_world_cup_ai_agent.Chat.ToolLoop.Defs.{
  ToolWidgetResult, Segment, text, widget, TurnResult, completed, capped, ToolLoopEvent,
  reasoning_delta, content_delta, tool_call_requested, widget_ready, turn_resolved,
  CompletionMessage, ToolDefinition, ChunkAggregator, present, fresh_aggregator, absorb, finalize,
  assistant_tool_call_message, execute_tool_call, max_iterations, clarification_request,
}

-- The generator's state: what it has yielded, `completion_messages` and `content_segments`.
pub record Turn : Type 0 where
  pub events : List ToolLoopEvent
  pub messages : List CompletionMessage
  pub segments : List Segment

-- A part of the generator. What was yielded before an exception stays yielded.
abbrev pub Gen : Type 0 → Type 0
Gen A = Turn → Result Raised A × Turn

abbrev pub continue : {A B : Type 0} → (A → Gen B) → Result Raised A × Turn → Result Raised B × Turn
continue f (ok a, t) = f a t
continue f (err e, t) = (err e, t)

infixl 5 ◌>>=◌ ◌>>◌
abbrev pub ◌>>=◌ : {A B : Type 0} → Gen A → (A → Gen B) → Gen B
◌>>=◌ m f t = continue f (m t)

abbrev pub ◌>>◌ : {A B : Type 0} → Gen A → Gen B → Gen B
m >> k = m >>= λ _. k

abbrev pub pure : {A : Type 0} → A → Gen A
pure a t = (ok a, t)

abbrev pub lift : {A : Type 0} → Result Raised A → Gen A
lift r t = (r, t)

abbrev pub yield_all : List ToolLoopEvent → Gen (Unit {0})
yield_all es t = (ok tt, record t { events = t.events ++ es })

abbrev pub add_message : CompletionMessage → Gen (Unit {0})
add_message m t = (ok tt, record t { messages = t.messages ++ m ∷ [] })

abbrev pub add_segments : List Segment → Gen (Unit {0})
add_segments ss t = (ok tt, record t { segments = t.segments ++ ss })

-- The events that one chunk is forwarded as: its reasoning, then its content.
abbrev pub deltas : ChatCompletionChunk → List ToolLoopEvent
deltas chunk =
    map reasoning_delta (present chunk.delta_reasoning)
    ++ map content_delta (present chunk.delta_content)

-- `async for chunk in chunks`
unfoldable pub forward : List ChatCompletionChunk → ChunkAggregator → Gen ChunkAggregator
forward [] a = pure a
forward (chunk ∷ chunks) a = do yield_all (deltas chunk); forward chunks (absorb chunk a)

-- The segments that one tool call adds, and the event that announces them.
abbrev pub widget_segments : Option ToolWidgetResult → List Segment
widget_segments none = []
widget_segments (some w) = widget w ∷ []

abbrev pub widget_events : Option ToolWidgetResult → List ToolLoopEvent
widget_events none = []
widget_events (some w) = widget_ready w ∷ []

abbrev pub text_segments : String → List Segment
text_segments content = if truthy content then text content ∷ [] else []

-- The end of a stream: its exception, or `aggregator.finalize()` and the text as a segment.
unfoldable pub conclude : Option Raised → ChunkAggregator → Gen ChatCompletionResult
conclude (some e) a = lift (err e)
conclude none a = do
  result ← lift (finalize a)
  add_segments (text_segments result.content)
  pure result

abbrev pub is_tool_calls : FinishReason → Bool
is_tool_calls FinishReason.tool_calls = true
is_tool_calls _ = false

abbrev pub no_calls : List ToolCall → Bool
no_calls [] = true
no_calls (c ∷ cs) = false

-- `result.finish_reason != "tool_calls" or not result.tool_calls`
abbrev pub is_final : ChatCompletionResult → Bool
is_final result = not (is_tool_calls result.finish_reason) || no_calls result.tool_calls

-- The texts among the segments, `s for s in content_segments if isinstance(s, str)`.
abbrev pub texts : List Segment → List String
texts [] = []
texts (text s ∷ ss) = s ∷ texts ss
texts (widget w ∷ ss) = texts ss

abbrev pub resolve : TurnResult → Gen (Unit {0})
resolve result t = (ok tt, record t { events = t.events ++ turn_resolved result t.segments ∷ [] })

-- Past the last iteration: the cap.
unfoldable pub resolve_capped : Gen (Unit {0})
resolve_capped t =
    resolve
      (capped (record {
        partial_content = join (texts t.segments);
        clarification = clarification_request;
      }))
      t

module _ (client : List CompletionMessage → List Json → CompletionStream) (tools : List Json) where
  -- One LLM call, streamed and aggregated.
  unfoldable pub complete : Gen ChatCompletionResult
  unfolding forward conclude
  complete t =
      let stream = client t.messages tools in
      (forward stream.chunks fresh_aggregator >>= conclude stream.failure) t

abbrev pub answer : CompletionMessage × Option ToolWidgetResult → Gen (Unit {0})
answer (message, found) = do
  add_message message
  add_segments (widget_segments found)
  yield_all (widget_events found)

module _ {Args : Type 0} (registry : List (String × ToolDefinition Args)) where
  -- `for tool_call in result.tool_calls`
  unfoldable pub run_calls : List ToolCall → Gen (Unit {0})
  run_calls [] = pure tt
  run_calls (call ∷ calls) = do
    yield_all (tool_call_requested call.name ∷ [])
    reply ← lift (execute_tool_call registry call)
    answer reply
    run_calls calls

  module _ (client : List CompletionMessage → List Json → CompletionStream)
      (tools : List Json) where
    -- The rest of the loop, with so many iterations left.
    unfoldable pub iterate : ℕ → Gen (Unit {0})
    unfolding complete run_calls resolve_capped
    iterate zero = resolve_capped
    iterate (suc n) = do
      result ← complete client tools
      if is_final result then resolve (completed result) else (do
        add_message (assistant_tool_call_message result)
        run_calls result.tool_calls
        iterate n)

    unfoldable pub run : List CompletionMessage → Result Raised (Unit {0}) × Turn
    unfolding iterate
    run messages =
        iterate max_iterations (record { events = []; messages = messages; segments = [] })
