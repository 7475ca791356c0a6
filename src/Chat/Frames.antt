-- ===== src/Chat/Frames.antt =====
-- Stream entries as SSE frames: backend/src/api/v1/chat/sse.py, and the message parts of
-- backend/src/api/v1/chat/dtos/chat_dtos.py that it builds.
pub mod Laws
mod Tests
use fifa_world_cup_ai_agent.Prelude.{
  String, Option, none, some, List, [], ◌∷◌, Result, ok, err, ◌>>=◌, if◌then◌else◌, str_eq,
}
use fifa_world_cup_ai_agent.Json.{
  Json, null, string, array, object, Items, nil, cons, Fields, end, field, get, set, merge,
}
use fifa_world_cup_ai_agent.Chat.ToolLoop.{ToolWidgetResult, Segment}
use fifa_world_cup_ai_agent.Chat.Events.{
  ChatTurnEvent, ParseError, parse_chat_turn_event, optional_string,
}

-- The `MessagePart` classes that carry a widget.
pub data PartClass : Type 0 where
  team_widget match_widget player_widget compare_widget team_compare_widget : PartClass
  ranking_widget : PartClass

pub data MessagePart : Type 0 where
  text_part : String → MessagePart
  widget_part : PartClass → Fields → MessagePart

-- The classes of `ChatStreamEvent`.
pub data StreamEventDto : Type 0 where
  reasoning_delta content_delta tool_call : String → StreamEventDto
  widget_ready : MessagePart → StreamEventDto
  cap_reached : String → String → StreamEventDto
  message_done : String → List MessagePart → Option String → StreamEventDto
  error : String → StreamEventDto

-- The `ValueError` of an unmapped widget type or of an unknown user event, and what parsing raises.
pub data FrameError : Type 0 where
  no_part unhandled ill_detail : String → FrameError
  unparsed : ParseError → FrameError

-- `WIDGET_TYPE_TO_PART_CLASS.get`
unfoldable pub widget_type_to_part_class : String → Option PartClass
widget_type_to_part_class t =
    if str_eq t "team_widget"
    then some team_widget
    else if str_eq t "match_widget"
    then some match_widget
    else if str_eq t "player_widget"
    then some player_widget
    else if str_eq t "compare_widget"
    then some compare_widget
    else if str_eq t "team_compare_widget"
    then some team_compare_widget
    else if str_eq t "ranking_widget"
    then some ranking_widget
    else none

abbrev pub part_of : ToolWidgetResult → Option PartClass → Result FrameError MessagePart
part_of w none = err (no_part w.widget_type)
part_of w (some c) = ok (widget_part c w.payload)

unfoldable pub widget_to_part : ToolWidgetResult → Result FrameError MessagePart
widget_to_part w = part_of w (widget_type_to_part_class w.widget_type)

unfoldable pub segment_to_part : Segment → Result FrameError MessagePart
unfolding widget_to_part
segment_to_part (Segment.text s) = ok (text_part s)
segment_to_part (Segment.widget w) = widget_to_part w

unfoldable pub segments_to_parts : List Segment → Result FrameError (List MessagePart)
unfolding segment_to_part
segments_to_parts [] = ok []
segments_to_parts (s ∷ ss) = do p ← segment_to_part s; ps ← segments_to_parts ss; ok (p ∷ ps)

-- `parts or [TextPart(content=event.content)]`
abbrev pub or_text : List MessagePart → String → List MessagePart
or_text [] content = text_part content ∷ []
or_text (p ∷ ps) content = p ∷ ps

unfoldable pub to_dto : ChatTurnEvent → Result FrameError StreamEventDto
unfolding widget_to_part segments_to_parts
to_dto (ChatTurnEvent.reasoning_delta content) = ok (reasoning_delta content)
to_dto (ChatTurnEvent.content_delta content) = ok (content_delta content)
to_dto (ChatTurnEvent.tool_call_requested name) = ok (tool_call name)
to_dto (ChatTurnEvent.widget_ready w) = do part ← widget_to_part w; ok (widget_ready part)
to_dto (ChatTurnEvent.cap_reached content clarification) = ok (cap_reached content clarification)
to_dto (ChatTurnEvent.persistence_failed detail) = ok (error detail)
to_dto (ChatTurnEvent.message_done conversation_id content model segments) = do
  parts ← segments_to_parts segments
  ok (message_done conversation_id (or_text parts content) model)

-- `payload.get("detail", event_type)`, which pydantic wants to be a text.
abbrev pub detail_or : String → Option Json → Result FrameError String
detail_or event_type none = ok event_type
detail_or event_type (some (string s)) = ok s
detail_or event_type (some v) = err (ill_detail event_type)

abbrev pub parsed_to_dto :
    String → Fields → Result ParseError (Option ChatTurnEvent) → Result FrameError StreamEventDto
parsed_to_dto event_type payload (err e) = err (unparsed e)
parsed_to_dto event_type payload (ok none) = do
  detail ← detail_or event_type (get "detail" payload)
  ok (error detail)
parsed_to_dto event_type payload (ok (some event)) = to_dto event

unfoldable pub redis_entry_to_dto : String → Fields → Result FrameError StreamEventDto
redis_entry_to_dto event_type payload =
    parsed_to_dto event_type payload (parse_chat_turn_event event_type payload)

abbrev pub part_tag : PartClass → String
part_tag team_widget = "team_widget"
part_tag match_widget = "match_widget"
part_tag player_widget = "player_widget"
part_tag compare_widget = "compare_widget"
part_tag team_compare_widget = "team_compare_widget"
part_tag ranking_widget = "ranking_widget"

abbrev pub dump_part : MessagePart → Json
dump_part (text_part s) = object (field "type" (string "text") (field "content" (string s) end))
dump_part (widget_part c payload) =
    object (field "type" (string (part_tag c)) (field "data" (object payload) end))

abbrev pub dump_parts : List MessagePart → Items
dump_parts [] = nil
dump_parts (p ∷ ps) = cons (dump_part p) (dump_parts ps)

-- `dto.model_dump()`
unfoldable pub model_dump : StreamEventDto → Fields
model_dump (reasoning_delta content) =
    field "type" (string "reasoning_delta") (field "content" (string content) end)
model_dump (content_delta content) =
    field "type" (string "content_delta") (field "content" (string content) end)
model_dump (tool_call name) = field "type" (string "tool_call") (field "name" (string name) end)
model_dump (widget_ready part) =
    field "type" (string "widget_ready") (field "part" (dump_part part) end)
model_dump (cap_reached content clarification) =
    field "type" (string "cap_reached")
      (field "content" (string content) (field "clarification" (string clarification) end))
model_dump (message_done conversation_id parts model) = field "type" (string "message_done") (
    field "conversation_id" (string conversation_id)
      (field "parts" (array (dump_parts parts)) (field "model" (optional_string model) end)))
model_dump (error detail) = field "type" (string "error") (field "detail" (string detail) end)

abbrev pub heading : String → String → Fields
heading kind entry_id = field "type" (string kind) (field "cursor" (string entry_id) end)

unfoldable pub client_message : String → String → Fields → Result FrameError Fields
client_message entry_id event_type payload =
    if str_eq event_type "UserMessageEvent"
    then ok (merge (heading "user_message" entry_id) payload)
    else (do
      dto ← redis_entry_to_dto event_type payload
      ok (set "cursor" (string entry_id) (model_dump dto)))

-- `_USER_EVENT_WIRE_TYPE.get`
abbrev pub user_event_wire_type : String → Option String
user_event_wire_type t =
    if str_eq t "ConversationCreatedEvent"
    then some "conversation_created"
    else if str_eq t "ConversationCategorizedEvent"
    then some "conversation_updated"
    else if str_eq t "ConversationTouchedEvent"
    then some "conversation_touched"
    else none

abbrev pub framed : String → String → Fields → Option String → Result FrameError (String × Fields)
framed entry_id event_type payload none = err (unhandled event_type)
framed entry_id event_type payload (some wire) = ok (wire, merge (heading wire entry_id) payload)

unfoldable pub user_event_message : String → String → Fields → Result FrameError (String × Fields)
user_event_message entry_id event_type payload =
    framed entry_id event_type payload (user_event_wire_type event_type)
