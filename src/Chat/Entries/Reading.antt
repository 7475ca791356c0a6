-- ===== src/Chat/Entries/Reading.antt =====
-- What the readers of the two streams make of the entries that the serializers write.
use fifa_world_cup_ai_agent.Prelude.{ℕ, String, ◌≡◌, refl, Option, none, some, Result, ok}
use fifa_world_cup_ai_agent.Json.{Json, null, object, number, string, Fields, end, field}
use fifa_world_cup_ai_agent.Chat.Frames.{client_message, user_event_message, FrameError}
use fifa_world_cup_ai_agent.Chat.Entries.{
  ConversationCategorizedEvent, ConversationCreatedEvent, ConversationTouchedEvent,
  UserMessageEvent, optional_object, serialize_user_message_event,
  serialize_conversation_categorized_event, serialize_conversation_created_event,
  serialize_conversation_touched_event,
}

abbrev pub json_or_null : Option Fields → Json
json_or_null none = null
json_or_null (some fs) = object fs

json_or_null-optional : (o : Option Fields) → json_or_null o ≡ optional_object o
json_or_null-optional none = refl
json_or_null-optional (some fs) = refl

module _ {Text : Type 0} (dumps : Fields → Text) (loads : Text → Fields)
    (decimal : ℕ → String) where
  -- A reader of the per-user stream frames the entry.
  abbrev pub read_user_entry : String → String × Text → Result FrameError (String × Fields)
  read_user_entry id entry = user_event_message id entry.0 (loads entry.1)

  -- If reading a JSON text undoes writing it, every event of the per-user stream is framed by its
  -- wire type, with the entry's id as cursor and then the event's own fields.
  pub user_event_message-serialize :
      ((fs : Fields) → loads (dumps fs) ≡ fs)
      → (id : String) (c : ConversationCategorizedEvent) (n : ConversationCreatedEvent)
        (t : ConversationTouchedEvent)
      → (read_user_entry id (serialize_conversation_categorized_event dumps decimal c)
          ≡ ok (
            "conversation_updated",
            field "type" (string "conversation_updated") (
                field "cursor" (string id) (
                  field "conversation_id"
                    (string c.conversation_id)
                    (field "title" (string c.title) (field "icon" (string c.icon) end)))),
          ))
        × (read_user_entry id (serialize_conversation_created_event dumps decimal n)
            ≡ ok (
              "conversation_created",
              field "type" (string "conversation_created") (
                  field "cursor" (string id) (
                    field "conversation_id" (string n.conversation_id) (
                      field "title"
                        (string n.title)
                        (field "created_at" (string n.created_at) end)))),
            ))
        × (read_user_entry id (serialize_conversation_touched_event dumps decimal t)
            ≡ ok (
              "conversation_touched",
              field "type" (string "conversation_touched") (
                  field "cursor" (string id) (
                    field "conversation_id"
                      (string t.conversation_id)
                      (field "updated_at" (string t.updated_at) end))),
            ))
  unfolding user_event_message serialize_conversation_categorized_event
      serialize_conversation_created_event serialize_conversation_touched_event
  user_event_message-serialize h id c n t = (rw h refl, rw h refl, rw h refl)

  -- If reading a JSON text undoes writing it, the user message's entry of the turn stream is framed
  -- by its wire type, with the entry's id as cursor and then the message's own fields.
  pub client_message-serialize :
      ((fs : Fields) → loads (dumps fs) ≡ fs)
      → (id : String) (m : UserMessageEvent)
      → (let entry = serialize_user_message_event dumps decimal m in
          client_message id entry.0 (loads entry.1)
          ≡ ok (
              field "type" (string "user_message") (
                field "cursor" (string id) (
                  field "conversation_id" (string m.conversation_id) (
                    field "message_id" (number (decimal m.message_id)) (
                      field "content" (string m.content) (
                        field "title"
                          (string m.title)
                          (field "metadata" (json_or_null m.metadata) end))))))))
  unfolding serialize_user_message_event client_message
  client_message-serialize h id m = rw (h, json_or_null-optional m.metadata) refl
