-- ===== src/Chat/Entries/Tests.antt =====
-- One event of each kind, with JSON texts that stand for themselves.
use fifa_world_cup_ai_agent.Prelude.{ℕ, String, ◌≡◌, refl, none, ok}
use fifa_world_cup_ai_agent.Json.{number, string, Fields, end, field}
use fifa_world_cup_ai_agent.Chat.Frames.{client_message}
use fifa_world_cup_ai_agent.Chat.Entries.{
  ConversationCategorizedEvent, ConversationCreatedEvent, ConversationTouchedEvent,
  UserMessageEvent, serialize_user_message_event, serialize_conversation_categorized_event,
  serialize_conversation_created_event, serialize_conversation_touched_event,
}
use fifa_world_cup_ai_agent.Chat.Entries.Reading.{
  read_user_entry, user_event_message-serialize, client_message-serialize, json_or_null,
}

abbrev text : Fields → Fields
text fs = fs

abbrev three : ℕ → String
three n = "3"

abbrev categorized : ConversationCategorizedEvent
categorized = record { conversation_id = "c0"; title = "Cup"; icon = "team" }

abbrev created : ConversationCreatedEvent
created = record { conversation_id = "c0"; title = "Cup"; created_at = "2026-06-11" }

abbrev touched : ConversationTouchedEvent
touched = record { conversation_id = "c0"; updated_at = "2026-06-12" }

abbrev sent : UserMessageEvent
sent = record {
  conversation_id = "c0";
  message_id = 3;
  content = "hi";
  title = "Cup";
  metadata = none;
}

user_event_message-serialize_example :
    (read_user_entry text text three "1-0"
        (serialize_conversation_categorized_event text three categorized)
      ≡ ok (
        "conversation_updated",
        field "type" (string "conversation_updated") (
            field "cursor" (string "1-0") (
              field "conversation_id"
                (string "c0")
                (field "title" (string "Cup") (field "icon" (string "team") end)))),
      ))
    × (read_user_entry text text three "1-0"
          (serialize_conversation_created_event text three created)
        ≡ ok (
          "conversation_created",
          field "type" (string "conversation_created") (
              field "cursor" (string "1-0") (
                field "conversation_id"
                  (string "c0")
                  (field "title" (string "Cup") (field "created_at" (string "2026-06-11") end)))),
        ))
    × (read_user_entry text text three "1-0"
          (serialize_conversation_touched_event text three touched)
        ≡ ok (
          "conversation_touched",
          field "type" (string "conversation_touched") (
              field "cursor" (string "1-0") (
                field "conversation_id"
                  (string "c0")
                  (field "updated_at" (string "2026-06-12") end))),
        ))
user_event_message-serialize_example =
    user_event_message-serialize text text three (λ fs. refl) "1-0" categorized created touched

client_message-serialize_example :
    (let entry = serialize_user_message_event text three sent in
      client_message "1-0" entry.0 (text entry.1)
      ≡ ok (
          field "type" (string "user_message") (
            field "cursor" (string "1-0") (
              field "conversation_id" (string sent.conversation_id) (
                field "message_id" (number (three sent.message_id)) (
                  field "content" (string sent.content) (
                    field "title"
                      (string sent.title)
                      (field "metadata" (json_or_null sent.metadata) end))))))))
client_message-serialize_example = client_message-serialize text text three (λ fs. refl) "1-0" sent
