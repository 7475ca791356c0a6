-- ===== src/Chat/Service/Parts.antt =====
-- The pure parts of a turn in backend/src/domain/chat/services/chat_service.py: the prompt, the
-- directive for a selected match, and what a result of the tool loop becomes.
use fifa_world_cup_ai_agent.Prelude.{
  ℕ, String, ◌<>◌, Option, none, some, List, [], ◌∷◌, ◌++◌, Result, ok, ◌>>=◌,
}
use fifa_world_cup_ai_agent.Json.{Fields}
use fifa_world_cup_ai_agent.Chat.Completion.{Raised}
use fifa_world_cup_ai_agent.Chat.History.{Message, MessageRole, system, user, assistant, tool}
use fifa_world_cup_ai_agent.Chat.ToolLoop.{
  Segment, TurnResult, completed, capped, ToolLoopEvent, turn_resolved, CompletionMessage, plain,
}
use fifa_world_cup_ai_agent.Chat.Events.{ChatTurnEvent, cap_reached}

-- Python's `strip`, and the text of an `OpenRouterRequestFailed`.
pub record Texts : Type 0 where
  pub strip : String → String
  pub request_failed_text : Option ℕ → String → String

-- `MessageContextDto.model_dump()`
pub record MessageContext : Type 0 where
  pub match_id : Option ℕ

pub record Match : Type 0 where
  pub home_team_id : ℕ
  pub away_team_id : ℕ
  pub date_iso : String

-- `get` of the two repositories: a match, and the name of a team.
pub record Lookups : Type 0 where
  pub match_repo : ℕ → Result Raised (Option Match)
  pub national_team_repo : ℕ → Result Raised (Option String)

abbrev pub system_prompt : String
system_prompt =
    "You are a Football AI Scout Assistant. Based mostly on data from the FIFA World Cup 2026, but also other sources. Have a professional language and tone when answering messagesYou answer questions about teams, matches, and players using the data available in this application.Always prioritize using tools to answer questions. If the tools doen't answer the question, say so and ask the user to provide more information.If the tools doesn't answer the user's request of information, don't make up a response that might involve football dataIf a name seems to be mistaken, search first, and then, if data doesn't appear, try a corrected spelling or another alternative namesIf there are several alternativas for a name, like Luis Suarez, ask the user to provide more information to narrow down the searchDon't use emojis in your answers."

abbrev pub directive_text : Match → String → String → String
directive_text match home away =
    "The user selected this specific match via the match selector: " <> home <> " vs " <> away
    <> " on " <> match.date_iso <> ".\n" <> "You MUST call the get_match_analysis tool with "
    <> "home_team_name=\"" <> home <> "\", away_team_name=\"" <> away <> "\", " <> "date=\""
    <> match.date_iso <> "\" before answering anything about this match. "
    <> "Do not answer from assumptions."

abbrev pub directive_of : Match → Option String → Option String → Option String
directive_of match (some home) (some away) = some (directive_text match home away)
directive_of match _ _ = none

module _ (lookups : Lookups) where
  open lookups use {match_repo, national_team_repo}

  abbrev pub for_match : Option Match → Result Raised (Option String)
  for_match none = ok none
  for_match (some match) = do
    home ← national_team_repo match.home_team_id
    away ← national_team_repo match.away_team_id
    ok (directive_of match home away)

  abbrev pub for_match_id : Option ℕ → Result Raised (Option String)
  for_match_id none = ok none
  for_match_id (some match_id) = match_repo match_id >>= for_match

  unfoldable pub build_match_directive : Option MessageContext → Result Raised (Option String)
  build_match_directive none = ok none
  build_match_directive (some context) = for_match_id context.match_id

abbrev pub role_text : MessageRole → String
role_text system = "system"
role_text user = "user"
role_text assistant = "assistant"
role_text tool = "tool"

abbrev pub prompt_of : List Message → List CompletionMessage
prompt_of [] = []
prompt_of (m ∷ history) = plain (role_text m.role) m.content ∷ prompt_of history

abbrev pub directive_messages : Option String → List CompletionMessage
directive_messages none = []
directive_messages (some directive) = plain "system" directive ∷ []

abbrev pub completion_messages : Option String → List Message → List CompletionMessage
completion_messages directive history =
    plain "system" system_prompt ∷ directive_messages directive ++ prompt_of history

unfoldable pub reply_content : Texts → TurnResult → String
reply_content texts (capped cap) = texts.strip (cap.partial_content <> "\n\n" <> cap.clarification)
reply_content texts (completed result) = result.content

abbrev pub model_of : TurnResult → Option String
model_of (completed result) = some result.model
model_of (capped cap) = none

abbrev pub cap_events : TurnResult → List ChatTurnEvent
cap_events (completed result) = []
cap_events (capped cap) = cap_reached cap.partial_content cap.clarification ∷ []

-- `message_parts_segments`
abbrev pub segments_of : Texts → TurnResult → List Segment → List Segment
segments_of texts (completed result) segments = segments
segments_of texts (capped cap) segments = Segment.text (reply_content texts (capped cap)) ∷ []

abbrev pub widgets_of : List Segment → List (String × String × Fields)
widgets_of [] = []
widgets_of (Segment.text s ∷ segments) = widgets_of segments
widgets_of (Segment.widget w ∷ segments) =
    (w.tool_name, w.widget_type, w.payload) ∷ widgets_of segments

-- The events that the turn yields on, `else: yield event`.
abbrev pub live_events : List ToolLoopEvent → List ChatTurnEvent
live_events [] = []
live_events (ToolLoopEvent.reasoning_delta s ∷ es) =
    ChatTurnEvent.reasoning_delta s ∷ live_events es
live_events (ToolLoopEvent.content_delta s ∷ es) = ChatTurnEvent.content_delta s ∷ live_events es
live_events (ToolLoopEvent.tool_call_requested s ∷ es) =
    ChatTurnEvent.tool_call_requested s ∷ live_events es
live_events (ToolLoopEvent.widget_ready w ∷ es) = ChatTurnEvent.widget_ready w ∷ live_events es
live_events (ToolLoopEvent.turn_resolved result segments ∷ es) = live_events es

abbrev later_or :
    Option (TurnResult × List Segment) → TurnResult × List Segment → TurnResult × List Segment
later_or none resolved = resolved
later_or (some later) resolved = later

-- `final_result` and `final_content_segments` after the loop.
abbrev pub resolution : List ToolLoopEvent → Option (TurnResult × List Segment)
resolution [] = none
resolution (turn_resolved result segments ∷ es) = some (later_or (resolution es) (result, segments))
resolution (e ∷ es) = resolution es
