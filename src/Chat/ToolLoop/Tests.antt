-- ===== src/Chat/ToolLoop/Tests.antt =====
-- A turn in which the model asks for two tools, one of them unknown, and then answers.
use fifa_world_cup_ai_agent.Prelude.{◌≡◌, refl, List, [], ◌∷◌, none, some, String, ok}
use fifa_world_cup_ai_agent.Json.{Json, end}
use fifa_world_cup_ai_agent.Chat.Completion.{
  ChatCompletionChunk, FinishReason, ToolCall, CompletionStream,
}
use fifa_world_cup_ai_agent.Chat.ToolLoop.Defs.{
  CompletionMessage, plain, ToolDefinition, text, widget, ToolWidgetResult, absorb, finalize,
  execute_tool_call,
}
use fifa_world_cup_ai_agent.Chat.ToolLoop.Loop.{run}
use fifa_world_cup_ai_agent.Chat.ToolLoop.Rules.{Ensures}
use fifa_world_cup_ai_agent.Chat.ToolLoop.Outcome.{Resolved, Interrupted, run-Resolved}
use fifa_world_cup_ai_agent.Chat.ToolLoop.Totality.{IsWhole, run-returns}

abbrev blank_chunk : ChatCompletionChunk
blank_chunk = record {
  delta_content = none;
  delta_reasoning = none;
  tool_calls = none;
  finish_reason = none;
  model = none;
  cached_tokens = none;
  cache_write_tokens = none;
}

abbrev team_call : ToolCall
team_call = record { id = "c1"; name = "get_team_analysis"; arguments = "Uruguay" }

abbrev lost_call : ToolCall
lost_call = record { id = "c2"; name = "get_weather"; arguments = "" }

abbrev asking : CompletionStream
asking = record {
  chunks =
      record blank_chunk { delta_content = some "Let me "; delta_reasoning = some "hm" }
      ∷ record blank_chunk { delta_content = some "look. " }
      ∷ record blank_chunk {
        tool_calls = some (team_call ∷ lost_call ∷ []);
        finish_reason = some FinishReason.tool_calls;
        model = some "m";
      }
      ∷ [];
  failure = none;
}

abbrev answering : CompletionStream
answering = record {
  chunks =
      record blank_chunk {
        delta_content = some "Done.";
        finish_reason = some FinishReason.stop;
        model = some "m";
      }
      ∷ [];
  failure = none;
}

-- Asks at the first message, and answers after that.
abbrev client : List CompletionMessage → List Json → CompletionStream
client (m ∷ []) tools = asking
client _ tools = answering

abbrev tools : List (String × ToolDefinition String)
tools =
    (
      "get_team_analysis",
      record {
        validate = λ s. ok s;
        handler = λ s. ok (record { content = s; widget_data = some end });
        widget_type = some "team_widget";
      },
    )
    ∷ []

abbrev question : List CompletionMessage
question = plain "user" "How is Uruguay?" ∷ []

abbrev found_widget : ToolWidgetResult
found_widget = record {
  tool_call_id = "c1";
  tool_name = "get_team_analysis";
  widget_type = "team_widget";
  payload = end;
}

run-segments :
    (run tools client [] question).1.segments
    ≡ text "Let me look. " ∷ widget found_widget ∷ text "Done." ∷ []
unfolding run absorb finalize execute_tool_call
run-segments = refl

run-Resolved_example : Ensures (λ _ u. Resolved u) Interrupted (run tools client [] question)
run-Resolved_example = run-Resolved tools client [] question

client-IsWhole : (messages : List CompletionMessage) → IsWhole (client messages [])
client-IsWhole [] = record { no_failure = refl; finished = refl; modelled = refl }
client-IsWhole (m ∷ []) = record { no_failure = refl; finished = refl; modelled = refl }
client-IsWhole (m ∷ n ∷ ms) = record { no_failure = refl; finished = refl; modelled = refl }

run-returns_example : (run tools client [] question).0 ≡ ok tt
run-returns_example = run-returns tools client [] ((λ args. (_, refl)), tt) client-IsWhole question
