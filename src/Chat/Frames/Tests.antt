-- ===== src/Chat/Frames/Tests.antt =====
-- Frames of a widget event and of a failed turn.
use fifa_world_cup_ai_agent.Prelude.{◌≡◌, refl, some, ok}
use fifa_world_cup_ai_agent.Json.{Fields, string, end, get}
use fifa_world_cup_ai_agent.Chat.ToolLoop.{ToolWidgetResult}
use fifa_world_cup_ai_agent.Chat.Events.{ChatTurnEvent, chat_turn_event_payload}
use fifa_world_cup_ai_agent.Chat.Frames.{client_message, widget_type_to_part_class}
use fifa_world_cup_ai_agent.Chat.Frames.Laws.{IsMapped, wire_type, client_message-payload}

abbrev team : ToolWidgetResult
team = record {
  tool_call_id = "c1";
  tool_name = "get_team_analysis";
  widget_type = "team_widget";
  payload = end;
}

abbrev ready : ChatTurnEvent
ready = ChatTurnEvent.widget_ready team

team-IsMapped : IsMapped team
unfolding widget_type_to_part_class
team-IsMapped = refl

client_message-payload_example :
    (body : Fields) × (client_message "1-0"
        (chat_turn_event_payload ready).0
        (chat_turn_event_payload ready).1
      ≡ ok body)
    × (get "cursor" body ≡ some (string "1-0"))
    × (get "type" body ≡ some (string (wire_type ready)))
client_message-payload_example = client_message-payload "1-0" ready team-IsMapped
