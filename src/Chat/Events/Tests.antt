-- ===== src/Chat/Events/Tests.antt =====
-- The round trip of a finished message with a text and a widget.
use fifa_world_cup_ai_agent.Prelude.{◌≡◌, refl, none, some, [], ◌∷◌, ok}
use fifa_world_cup_ai_agent.Json.{end}
use fifa_world_cup_ai_agent.Chat.ToolLoop.{Segment}
use fifa_world_cup_ai_agent.Chat.Events.{
  ChatTurnEvent, message_done, chat_turn_event_payload, parse_chat_turn_event,
}
use fifa_world_cup_ai_agent.Chat.Events.RoundTrip.{parse-payload}

abbrev done : ChatTurnEvent
done = message_done "c0" "Hello" (some "m") (
    Segment.text "Hello"
    ∷ Segment.widget (record {
      tool_call_id = "c1";
      tool_name = "get_team_analysis";
      widget_type = "team_widget";
      payload = end;
    })
    ∷ [])

parse-payload_example :
    parse_chat_turn_event (chat_turn_event_payload done).0 (chat_turn_event_payload done).1
    ≡ ok (some done)
parse-payload_example = parse-payload done

unknown_tag : parse_chat_turn_event "ChatServiceUnavailable" end ≡ ok none
unfolding parse_chat_turn_event
unknown_tag = refl
