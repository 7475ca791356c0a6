-- ===== src/Chat/Entries.antt =====
-- The stream entries of backend/src/infra/task_queue/chat_streams.py: the events of the per-user
-- stream, and the serializers of both streams. An entry is its `event_type` and the JSON text of its
-- payload. JSON texts, `json.dumps` and the decimal text of a number are parameters.
pub mod Reading
mod Tests
use fifa_world_cup_ai_agent.Prelude.{ℕ, String, Option, none, some}
use fifa_world_cup_ai_agent.Json.{Json, null, number, string, object, Fields, end, field}
use fifa_world_cup_ai_agent.Chat.Events.{ChatTurnEvent, chat_turn_event_payload}

pub record ConversationCategorizedEvent : Type 0 where
  pub conversation_id : String
  pub title : String
  pub icon : String

pub record ConversationCreatedEvent : Type 0 where
  pub conversation_id : String
  pub title : String
  pub created_at : String

pub record ConversationTouchedEvent : Type 0 where
  pub conversation_id : String
  pub updated_at : String

-- The arguments of `serialize_user_message_event`.
pub record UserMessageEvent : Type 0 where
  pub conversation_id : String
  pub message_id : ℕ
  pub content : String
  pub title : String
  pub metadata : Option Fields

abbrev pub optional_object : Option Fields → Json
optional_object none = null
optional_object (some fs) = object fs

module _ {Text : Type 0} (dumps : Fields → Text) (decimal : ℕ → String) where
  abbrev pub user_message_payload : UserMessageEvent → Fields
  user_message_payload e = field "conversation_id" (string e.conversation_id) (
      field "message_id" (number (decimal e.message_id)) (
        field "content" (string e.content)
          (field "title" (string e.title) (field "metadata" (optional_object e.metadata) end))))

  unfoldable pub serialize_user_message_event : UserMessageEvent → String × Text
  serialize_user_message_event e = ("UserMessageEvent", dumps (user_message_payload e))

  unfoldable pub serialize_chat_turn_event : ChatTurnEvent → String × Text
  serialize_chat_turn_event event =
      let (event_type, payload) = chat_turn_event_payload event in (event_type, dumps payload)

  unfoldable pub serialize_conversation_categorized_event :
      ConversationCategorizedEvent → String × Text
  serialize_conversation_categorized_event e = (
    "ConversationCategorizedEvent",
    dumps (
        field "conversation_id" (string e.conversation_id)
          (field "title" (string e.title) (field "icon" (string e.icon) end))),
  )

  unfoldable pub serialize_conversation_created_event : ConversationCreatedEvent → String × Text
  serialize_conversation_created_event e = (
    "ConversationCreatedEvent",
    dumps (
        field "conversation_id" (string e.conversation_id)
          (field "title" (string e.title) (field "created_at" (string e.created_at) end))),
  )

  unfoldable pub serialize_conversation_touched_event : ConversationTouchedEvent → String × Text
  serialize_conversation_touched_event e = (
    "ConversationTouchedEvent",
    dumps (
        field "conversation_id" (string e.conversation_id)
          (field "updated_at" (string e.updated_at) end)),
  )
