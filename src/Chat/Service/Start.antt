-- ===== src/Chat/Service/Start.antt =====
-- The start of a turn: `start_turn` and `persist_user_message` of
-- backend/src/domain/chat/services/chat_service.py, with `get_or_create`, `append_message` and `touch`
-- of the repositories under backend/src/infra/postgres/repositories, on one conversation. A
-- transaction whose commit raises, or that is left before it, writes nothing. Times are numbers of a
-- clock that a parameter writes as ISO 8601, and the text of the ownership error, which names both ids,
-- is a parameter too.
pub mod Owner
mod Tests
use fifa_world_cup_ai_agent.Prelude.{
  ℕ, zero, suc, ◌≡◌, refl, String, ◌<>◌, Bool, true, false, Option, none, some, List, [], ◌∷◌, ◌++◌,
  Result, ok, err, if◌then◌else◌, ltb, ◌==◌, count, take_chars,
}
use fifa_world_cup_ai_agent.Json.{Fields}
use fifa_world_cup_ai_agent.Chat.Completion.{Raised, other_error}

pub record Conversation : Type 0 where
  pub user_id : ℕ
  pub title : String
  pub title_is_generated : Bool
  pub created_at : ℕ
  pub updated_at : ℕ

pub record UserRow : Type 0 where
  pub content : String
  pub metadata : Option Fields

-- A `ConversationCreatedEvent` or `ConversationTouchedEvent` of the conversation on a user's stream.
pub data Announced : Type 0 where
  created_event : ℕ → String → String → Announced
  touched_event : ℕ → String → Announced

-- The row of the conversation, the rows that users have sent to it, the categorization jobs (a user
-- and a first message each), and the streams of the users.
pub record Store : Type 0 where
  pub conversation : Option Conversation
  pub messages : List UserRow
  pub jobs : List (ℕ × String)
  pub announced : List Announced

-- What the calls of a request raise, and the time that the database writes.
pub record Calls : Type 0 where
  pub get : Option Raised
  pub flush : Option Raised
  pub touch : Option Raised
  pub commit : Option Raised
  pub enqueue : Option Raised
  pub xadd : Option Raised
  pub now : ℕ

-- `UPDATE ... RETURNING updated_at`: no row, no time.
abbrev pub touched_row : ℕ → Option Conversation → Option Conversation
touched_row now none = none
touched_row now (some row) = some (record row { updated_at = now })

abbrev pub touched_at : ℕ → Option Conversation → Option ℕ
touched_at now none = none
touched_at now (some row) = some now

module _ (strip : String → String) (isoformat ownership_text : ℕ → String) where
  -- `first_message[:40].strip()`, with an ellipsis for a longer message.
  unfoldable pub default_title : String → String
  default_title first_message =
      let title = strip (take_chars 40 first_message) in
      if ltb 40 (count first_message) then title <> "…" else title

  abbrev pub new_conversation : ℕ → String → ℕ → Conversation
  new_conversation user_id title now = record {
    user_id = user_id;
    title = title;
    title_is_generated = true;
    created_at = now;
    updated_at = now;
  }

  abbrev pub announce_created :
      Option Raised → ℕ → Conversation → Store → Result Raised Conversation × Store
  announce_created none user_id row s = (
    ok row,
    record s {
      announced = s.announced ++ created_event user_id row.title (isoformat row.created_at) ∷ [];
    },
  )
  announce_created (some x) user_id row s = (err x, s)

  abbrev pub enqueue :
      Option Raised → Calls → ℕ → String → Conversation → Store → Result Raised Conversation × Store
  enqueue none c user_id first_message row s =
      announce_created c.xadd user_id row
        (record s { jobs = s.jobs ++ (user_id, first_message) ∷ [] })
  enqueue (some x) c user_id first_message row s = (err x, s)

  -- The commit of a new row, and what follows it.
  abbrev pub commit_created :
      Option Raised → Calls → ℕ → String → Conversation → Store → Result Raised Conversation × Store
  commit_created none c user_id first_message row s =
      enqueue c.enqueue c user_id first_message row (record s { conversation = some row })
  commit_created (some x) c user_id first_message row s = (err x, s)

  abbrev pub flush_created :
      Option Raised → Calls → ℕ → String → Conversation → Store → Result Raised Conversation × Store
  flush_created none c user_id first_message row s =
      commit_created c.commit c user_id first_message row s
  flush_created (some x) c user_id first_message row s = (err x, s)

  abbrev pub commit_found :
      Option Raised → Conversation → Store → Result Raised Conversation × Store
  commit_found none row s = (ok row, s)
  commit_found (some x) row s = (err x, s)

  abbrev pub not_owned : ℕ → Raised
  not_owned user_id = other_error "ConversationOwnershipError" (ownership_text user_id)

  -- `get_or_create` on what `session.get` found, and the commit after it.
  abbrev pub get_or_create :
      Option Conversation → Calls → ℕ → String → Store → Result Raised Conversation × Store
  get_or_create (some row) c user_id first_message s =
      if row.user_id == user_id then commit_found c.commit row s else (err (not_owned user_id), s)
  get_or_create none c user_id first_message s =
      flush_created c.flush c user_id first_message
        (new_conversation user_id (default_title first_message) c.now) s

  abbrev pub after_get :
      Option Raised → Calls → ℕ → String → Store → Result Raised Conversation × Store
  after_get none c user_id first_message s = get_or_create s.conversation c user_id first_message s
  after_get (some x) c user_id first_message s = (err x, s)

  unfoldable pub start_turn : Calls → ℕ → String → Store → Result Raised Conversation × Store
  unfolding default_title
  start_turn c user_id first_message s = after_get c.get c user_id first_message s

  abbrev pub announce_touched : Option Raised → ℕ → Option ℕ → Store → Store
  announce_touched none user_id (some at) s = record s {
    announced = s.announced ++ touched_event user_id (isoformat at) ∷ [];
  }
  announce_touched _ user_id _ s = s

  abbrev pub commit_message :
      Option Raised → Calls → ℕ → UserRow → Store → Result Raised UserRow × Store
  commit_message none c user_id row s = (
    ok row,
    announce_touched c.xadd user_id (touched_at c.now s.conversation) (record s {
      conversation = touched_row c.now s.conversation;
      messages = s.messages ++ row ∷ [];
    }),
  )
  commit_message (some x) c user_id row s = (err x, s)

  abbrev pub touch_after :
      Option Raised → Calls → ℕ → UserRow → Store → Result Raised UserRow × Store
  touch_after none c user_id row s = commit_message c.commit c user_id row s
  touch_after (some x) c user_id row s = (err x, s)

  abbrev pub append_first :
      Option Raised → Calls → ℕ → UserRow → Store → Result Raised UserRow × Store
  append_first none c user_id row s = touch_after c.touch c user_id row s
  append_first (some x) c user_id row s = (err x, s)

  unfoldable pub persist_user_message :
      Calls → ℕ → String → Option Fields → Store → Result Raised UserRow × Store
  persist_user_message c user_id content metadata s =
      append_first c.flush c user_id (record { content = content; metadata = metadata }) s
