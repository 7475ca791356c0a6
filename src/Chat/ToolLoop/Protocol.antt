-- ===== src/Chat/ToolLoop/Protocol.antt =====
-- The conversation that the loop builds for the model: every request for tools is followed by one
-- answer to each of its calls, and the number of rounds is bounded.
use fifa_world_cup_ai_agent.Prelude.{
  ◌≡◌, ℕ, ◌<◌, List, [], ◌∷◌, ◌++◌, Option, none, some, join, String, true, false, All, arith, ok,
  length, last?, truthy, if◌then◌else◌,
}
use fifa_world_cup_ai_agent.Json.{Json}
use fifa_world_cup_ai_agent.Chat.Completion.{ChatCompletionResult, ToolCall}
use fifa_world_cup_ai_agent.Chat.ToolLoop.Defs.{
  ToolWidgetResult, CompletionMessage, ToolDefinition, completed, capped, turn_resolved,
  clarification_request, execute_tool_call, tool_result, tool_result_message, assistant_tool_calls,
}
use fifa_world_cup_ai_agent.Chat.ToolLoop.Loop.{Turn, texts, is_final}

-- The answers to the calls of one request, call by call.
abbrev pub answers : List ToolCall → List String → List CompletionMessage
answers (c ∷ cs) (s ∷ ss) = tool_result c.id c.name s ∷ answers cs ss
answers _ _ = []

pub record Round : Type 0 where
  pub asked : ChatCompletionResult
  pub replies : List String

-- The request is one, and has as many replies as calls.
abbrev pub IsComplete : Round → Type 0
IsComplete r = (is_final r.asked ≡ false) × (length r.replies ≡ length r.asked.tool_calls)

-- What the model said with a request, if it said anything.
abbrev pub said : String → Option String
said content = if truthy content then some content else none

abbrev pub round_messages : Round → List CompletionMessage
round_messages r =
    assistant_tool_calls (said r.asked.content) r.asked.tool_calls
    ∷ answers r.asked.tool_calls r.replies

abbrev pub rounds_messages : List Round → List CompletionMessage
rounds_messages [] = []
rounds_messages (r ∷ rs) = round_messages r ++ rounds_messages rs

-- How a loop of `n` iterations ended after `k` rounds: by the cap when all were used, or else by a
-- completion that asks for no tool.
pub data Verdict (n k : ℕ) (t : Turn) : Type 0 where
  by_cap :
      k ≡ n
      → last? t.events
        ≡ some (
            turn_resolved
              (capped (record {
                partial_content = join (texts t.segments);
                clarification = clarification_request;
              }))
              t.segments)
      → Verdict n k t
  by_answer :
      (result : ChatCompletionResult)
      → k < n
      → is_final result ≡ true
      → last? t.events ≡ some (turn_resolved (completed result) t.segments)
      → Verdict n k t

pub record Exchanged (n : ℕ) (start : List CompletionMessage) (t : Turn) : Type 0 where
  pub rounds : List Round
  pub sent : t.messages ≡ start ++ rounds_messages rounds
  pub complete_rounds : All IsComplete rounds
  pub verdict : Verdict n (length rounds) t

abbrev reply_text : CompletionMessage → String
reply_text (tool_result id name content) = content
reply_text _ = ""

-- The answer to a call carries the id and the name of the call.
pub execute_tool_call-answers :
    {Args : Type 0} (registry : List (String × ToolDefinition Args)) (call : ToolCall)
    (m : CompletionMessage) (w : Option ToolWidgetResult)
    → execute_tool_call registry call ≡ ok (m, w)
    → (reply : String) × (m ≡ tool_result call.id call.name reply)
unfolding execute_tool_call tool_result_message
execute_tool_call-answers registry call m w h = (reply_text m, ground arith)
