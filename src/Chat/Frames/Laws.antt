-- ===== src/Chat/Frames/Laws.antt =====
-- What a reader of the SSE stream is sent for the entries that a turn writes.
use fifa_world_cup_ai_agent.Prelude.{
  ◌≡◌, refl, ◌∙◌, String, true, false, some, List, [], ◌∷◌, ok, All, is_some, arith, Option-cases,
  str_eq, inl, inr,
}
use fifa_world_cup_ai_agent.Json.{string, Fields, get, set, get-set, get-set_self}
use fifa_world_cup_ai_agent.Chat.ToolLoop.{ToolWidgetResult, Segment}
use fifa_world_cup_ai_agent.Chat.Events.{ChatTurnEvent, chat_turn_event_payload}
use fifa_world_cup_ai_agent.Chat.Events.RoundTrip.{parse-payload}
use fifa_world_cup_ai_agent.Chat.Frames.{
  MessagePart, StreamEventDto, widget_type_to_part_class, widget_to_part, segments_to_parts,
  or_text, to_dto, redis_entry_to_dto, model_dump, client_message,
}

-- The widget types that have a part: those of the registered tools.
abbrev pub IsMapped : ToolWidgetResult → Type 0
IsMapped w = is_some (widget_type_to_part_class w.widget_type) ≡ true

abbrev pub IsMappedSegment : Segment → Type 0
IsMappedSegment (Segment.text s) = Unit
IsMappedSegment (Segment.widget w) = IsMapped w

-- Every widget of the event has a mapped type.
abbrev pub IsRenderable : ChatTurnEvent → Type 0
IsRenderable (ChatTurnEvent.widget_ready w) = IsMapped w
IsRenderable (ChatTurnEvent.message_done i c m ss) = All IsMappedSegment ss
IsRenderable _ = Unit

-- The `type` that the browser reads for each kind of event.
abbrev pub wire_type : ChatTurnEvent → String
wire_type (ChatTurnEvent.reasoning_delta s) = "reasoning_delta"
wire_type (ChatTurnEvent.content_delta s) = "content_delta"
wire_type (ChatTurnEvent.tool_call_requested s) = "tool_call"
wire_type (ChatTurnEvent.widget_ready w) = "widget_ready"
wire_type (ChatTurnEvent.cap_reached s c) = "cap_reached"
wire_type (ChatTurnEvent.persistence_failed d) = "error"
wire_type (ChatTurnEvent.message_done i c m ss) = "message_done"

widget_to_part-total :
    (w : ToolWidgetResult) → IsMapped w → (p : MessagePart) × (widget_to_part w ≡ ok p)
unfolding widget_to_part
widget_to_part-total w h = elim (Option-cases (widget_type_to_part_class w.widget_type)) [
  | inl e ↦ absurd (ground arith)
  | inr (c, e) ↦ rw e (_, refl)
]

segments_to_parts-total :
    (ss : List Segment)
    → All IsMappedSegment ss
    → (ps : List MessagePart) × (segments_to_parts ss ≡ ok ps)
unfolding segments_to_parts
segments_to_parts-total [] h = ([], refl)
segments_to_parts-total (Segment.text s ∷ ss) h =
    let (ps, e) = segments_to_parts-total ss h.1 in (MessagePart.text_part s ∷ ps, rw e)
segments_to_parts-total (Segment.widget w ∷ ss) h =
    let (p, d) = widget_to_part-total w h.0 in
    let (ps, e) = segments_to_parts-total ss h.1 in (p ∷ ps, rw (d, e))

to_dto-total :
    (event : ChatTurnEvent)
    → IsRenderable event
    → (dto : StreamEventDto) × (to_dto event ≡ ok dto)
      × (get "type" (model_dump dto) ≡ some (string (wire_type event)))
unfolding to_dto model_dump
to_dto-total (ChatTurnEvent.widget_ready w) h =
    let (p, e) = widget_to_part-total w h in (StreamEventDto.widget_ready p, rw e, refl)
to_dto-total (ChatTurnEvent.message_done i c m ss) h =
    let (ps, e) = segments_to_parts-total ss h in
    (StreamEventDto.message_done i (or_text ps c) m, rw e, refl)
to_dto-total _ h = (_, refl, refl)

not_user_message :
    (event : ChatTurnEvent) → str_eq (chat_turn_event_payload event).0 "UserMessageEvent" ≡ false
unfolding chat_turn_event_payload
not_user_message (ChatTurnEvent.reasoning_delta s) = refl
not_user_message _ = refl

redis_entry-payload :
    (event : ChatTurnEvent)
    → redis_entry_to_dto (chat_turn_event_payload event).0 (chat_turn_event_payload event).1
      ≡ to_dto event
unfolding redis_entry_to_dto
redis_entry-payload event = rw (parse-payload event)

-- Every event whose widgets have mapped types is framed without an error, and its frame has the
-- entry's id as cursor and the wire type of the event.
pub client_message-payload :
    (entry_id : String) (event : ChatTurnEvent)
    → IsRenderable event
    → (body : Fields) × (client_message entry_id
          (chat_turn_event_payload event).0
          (chat_turn_event_payload event).1
        ≡ ok body)
      × (get "cursor" body ≡ some (string entry_id))
      × (get "type" body ≡ some (string (wire_type event)))
unfolding client_message
client_message-payload entry_id event h =
    let (dto, e, k) = to_dto-total event h in
    (
      set "cursor" (string entry_id) (model_dump dto),
      rw (not_user_message event, redis_entry-payload event, e),
      get-set_self "cursor" (string entry_id) (model_dump dto),
      get-set "cursor" "type" (string entry_id) (model_dump dto) ∙ k,
    )
