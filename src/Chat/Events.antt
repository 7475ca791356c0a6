-- ===== src/Chat/Events.antt =====
-- The events of a chat turn and their stream form: backend/src/domain/chat/services/
-- chat_turn_events.py. A `KeyError`, and a value of another JSON type than the event's field, are
-- the two errors of parsing.
pub mod RoundTrip
mod Tests
use fifa_world_cup_ai_agent.Prelude.{
  String, Option, none, some, List, [], ◌∷◌, Result, ok, err, ◌>>=◌, if◌then◌else◌, str_eq,
}
use fifa_world_cup_ai_agent.Json.{
  Json, null, bool, number, string, array, object, Items, nil, cons, Fields, end, field, get,
}
use fifa_world_cup_ai_agent.Chat.ToolLoop.{ToolWidgetResult, Segment}

pub data ChatTurnEvent : Type 0 where
  reasoning_delta content_delta tool_call_requested : String → ChatTurnEvent
  widget_ready : ToolWidgetResult → ChatTurnEvent
  cap_reached : String → String → ChatTurnEvent
  persistence_failed : String → ChatTurnEvent
  message_done : String → String → Option String → List Segment → ChatTurnEvent

pub data ParseError : Type 0 where
  missing_key ill_typed : String → ParseError

-- `_widget_result_to_dict`, in front of other fields.
unfoldable pub widget_result_to_dict : ToolWidgetResult → Fields
widget_result_to_dict w = field "tool_call_id" (string w.tool_call_id) (
    field "tool_name" (string w.tool_name)
      (field "widget_type" (string w.widget_type) (field "data" (object w.payload) end)))

unfoldable pub segment_to_dict : Segment → Json
unfolding widget_result_to_dict
segment_to_dict (Segment.text content) =
    object (field "kind" (string "text") (field "content" (string content) end))
segment_to_dict (Segment.widget w) =
    object (field "kind" (string "widget") (widget_result_to_dict w))

abbrev pub segments_to_items : List Segment → Items
segments_to_items [] = nil
segments_to_items (s ∷ ss) = cons (segment_to_dict s) (segments_to_items ss)

abbrev pub optional_string : Option String → Json
optional_string none = null
optional_string (some s) = string s

-- The name of the event's class, and its payload.
unfoldable pub chat_turn_event_payload : ChatTurnEvent → String × Fields
unfolding segment_to_dict widget_result_to_dict
chat_turn_event_payload (reasoning_delta content) =
    ("ReasoningDeltaEvent", field "content" (string content) end)
chat_turn_event_payload (content_delta content) =
    ("ContentDeltaEvent", field "content" (string content) end)
chat_turn_event_payload (tool_call_requested name) =
    ("ToolCallRequestedEvent", field "name" (string name) end)
chat_turn_event_payload (widget_ready widget) =
    ("WidgetReadyEvent", field "widget" (object (widget_result_to_dict widget)) end)
chat_turn_event_payload (cap_reached content clarification) = (
  "CapReachedEvent",
  field "content" (string content) (field "clarification" (string clarification) end),
)
chat_turn_event_payload (persistence_failed detail) =
    ("PersistenceFailedEvent", field "detail" (string detail) end)
chat_turn_event_payload (message_done conversation_id content model segments) = (
  "MessageDoneEvent",
  field "conversation_id" (string conversation_id) (
      field "content" (string content) (
        field "model" (optional_string model)
          (field "content_segments" (array (segments_to_items segments)) end))),
)

abbrev pub or_missing : String → Option Json → Result ParseError Json
or_missing k none = err (missing_key k)
or_missing k (some v) = ok v

abbrev pub as_string : String → Json → Result ParseError String
as_string k (string s) = ok s
as_string k _ = err (ill_typed k)

abbrev pub as_optional_string : String → Json → Result ParseError (Option String)
as_optional_string k (string s) = ok (some s)
as_optional_string k null = ok none
as_optional_string k _ = err (ill_typed k)

abbrev pub as_object : String → Json → Result ParseError Fields
as_object k (object fs) = ok fs
as_object k _ = err (ill_typed k)

abbrev pub as_array : String → Json → Result ParseError Items
as_array k (array xs) = ok xs
as_array k _ = err (ill_typed k)

abbrev pub get_string : String → Fields → Result ParseError String
get_string k fs = or_missing k (get k fs) >>= as_string k

unfoldable pub widget_result_from_dict : Fields → Result ParseError ToolWidgetResult
widget_result_from_dict fs = do
  tool_call_id ← get_string "tool_call_id" fs
  tool_name ← get_string "tool_name" fs
  widget_type ← get_string "widget_type" fs
  content ← or_missing "data" (get "data" fs) >>= as_object "data"
  ok (record {
    tool_call_id = tool_call_id;
    tool_name = tool_name;
    widget_type = widget_type;
    payload = content;
  })

segment_of_kind : String → Fields → Result ParseError Segment
unfolding widget_result_from_dict
segment_of_kind kind fs =
    if str_eq kind "text"
    then (do content ← get_string "content" fs; ok (Segment.text content))
    else (do w ← widget_result_from_dict fs; ok (Segment.widget w))

unfoldable pub segment_from_dict : Fields → Result ParseError Segment
unfolding segment_of_kind
segment_from_dict fs = do kind ← get_string "kind" fs; segment_of_kind kind fs

unfoldable pub segments_from_items : Items → Result ParseError (List Segment)
unfolding segment_from_dict
segments_from_items nil = ok []
segments_from_items (cons v rest) = do
  fs ← as_object "content_segments" v
  s ← segment_from_dict fs
  ss ← segments_from_items rest
  ok (s ∷ ss)

-- `none` is the answer for a tag that is no event's, such as the name of an exception's class.
unfoldable pub parse_chat_turn_event : String → Fields → Result ParseError (Option ChatTurnEvent)
unfolding widget_result_from_dict segments_from_items
parse_chat_turn_event event_type fs =
    if str_eq event_type "ReasoningDeltaEvent"
    then (do content ← get_string "content" fs; ok (some (reasoning_delta content)))
    else if str_eq event_type "ContentDeltaEvent"
    then (do content ← get_string "content" fs; ok (some (content_delta content)))
    else if str_eq event_type "ToolCallRequestedEvent"
    then (do name ← get_string "name" fs; ok (some (tool_call_requested name)))
    else if str_eq event_type "WidgetReadyEvent"
    then (do
      widget ← or_missing "widget" (get "widget" fs) >>= as_object "widget"
      w ← widget_result_from_dict widget
      ok (some (widget_ready w)))
    else if str_eq event_type "CapReachedEvent"
    then (do
      content ← get_string "content" fs
      clarification ← get_string "clarification" fs
      ok (some (cap_reached content clarification)))
    else if str_eq event_type "PersistenceFailedEvent"
    then (do detail ← get_string "detail" fs; ok (some (persistence_failed detail)))
    else if str_eq event_type "MessageDoneEvent"
    then (do
      conversation_id ← get_string "conversation_id" fs
      content ← get_string "content" fs
      model ← or_missing "model" (get "model" fs) >>= as_optional_string "model"
      items ←
          or_missing "content_segments" (get "content_segments" fs) >>= as_array "content_segments"
      segments ← segments_from_items items
      ok (some (message_done conversation_id content model segments)))
    else ok none
