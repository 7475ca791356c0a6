-- ===== src/Chat/Events/RoundTrip.antt =====
-- Parsing gives back every event that was written to the stream.
use fifa_world_cup_ai_agent.Prelude.{◌≡◌, refl, none, some, List, [], ◌∷◌, ok}
use fifa_world_cup_ai_agent.Chat.ToolLoop.{Segment}
use fifa_world_cup_ai_agent.Chat.Events.{
  ChatTurnEvent, message_done, segments_to_items, segments_from_items, chat_turn_event_payload,
  parse_chat_turn_event, segment_to_dict,
}

segments_round_trip : (ss : List Segment) → segments_from_items (segments_to_items ss) ≡ ok ss
unfolding segments_from_items segment_to_dict
segments_round_trip [] = refl
segments_round_trip (Segment.text s ∷ ss) = rw (segments_round_trip ss)
segments_round_trip (Segment.widget w ∷ ss) = rw (segments_round_trip ss)

-- An event that is mapped to its stream form is parsed back as itself.
pub parse-payload :
    (event : ChatTurnEvent)
    → parse_chat_turn_event (chat_turn_event_payload event).0 (chat_turn_event_payload event).1
      ≡ ok (some event)
unfolding chat_turn_event_payload parse_chat_turn_event
parse-payload (message_done c s none ss) = rw (segments_round_trip ss)
parse-payload (message_done c s (some m) ss) = rw (segments_round_trip ss)
parse-payload _ = refl
