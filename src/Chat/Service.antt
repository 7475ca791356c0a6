-- ===== src/Chat/Service.antt =====
-- One chat turn of one conversation: backend/src/domain/chat/services/chat_service.py, with
-- backend/src/infra/redis/repositories/conversation_cache_repository.py and
-- `publish_conversation_touched` of backend/src/infra/task_queue/chat_streams.py. What each call to
-- Postgres or Redis raises is an argument: no exception, or the one that it raises. A transaction
-- whose commit raises, or that is left before it, writes nothing. The expiry of the cache is left out.
pub mod Parts
pub mod Start
mod Shown
mod Rows
pub mod Events
pub mod Cache
mod Tests
use fifa_world_cup_ai_agent.Prelude.{
  ℕ, String, ◌<>◌, Bool, Option, none, some, List, [], ◌∷◌, ◌++◌, Result, ok, err,
}
use fifa_world_cup_ai_agent.Json.{Json, Fields}
use fifa_world_cup_ai_agent.Chat.Completion.{Raised, request_failed, other_error, CompletionStream}
use fifa_world_cup_ai_agent.Chat.History.{Message, MessageRole, message, rebuild}
use fifa_world_cup_ai_agent.Chat.ToolLoop.{
  ToolWidgetResult, Segment, TurnResult, completed, capped, ToolLoopEvent, turn_resolved,
  CompletionMessage, ToolDefinition, Turn, run,
}
use fifa_world_cup_ai_agent.Chat.Events.{
  ChatTurnEvent, cap_reached, persistence_failed, message_done,
}
use fifa_world_cup_ai_agent.Chat.Service.Parts.{
  Texts, MessageContext, Lookups, build_match_directive, completion_messages, reply_content,
  model_of, cap_events, segments_of, widgets_of, live_events, resolution,
}

-- A row of `chat_message`, with the rows of its widgets.
pub record Row : Type 0 where
  pub message : Message
  pub widgets : List (String × String × Fields)

-- The rows of the conversation in the order of their `sequence`, its cached history, and the
-- `ConversationTouchedEvent`s on the user's stream.
pub record World (Time : Type 0) : Type 0 where
  pub rows : List Row
  pub updated_at : Option Time
  pub cached : List Message
  pub touched : List Time

-- What the calls of one turn raise. `now` is the time that `touch` writes.
pub record Outcomes (Time : Type 0) : Type 0 where
  pub get_history : Option Raised
  pub list_prompt_turns : Option Raised
  pub save_rebuilt : Option Raised
  pub append_message : Option Raised
  pub touch : Option Raised
  pub commit : Option Raised
  pub xadd : Option Raised
  pub save_history : Option Raised
  pub now : Time

abbrev pub prompt_rows : List Row → List Message
prompt_rows [] = []
prompt_rows (row ∷ rows) = row.message ∷ prompt_rows rows

abbrev pub raise_or : {A : Type 0} → Option Raised → A → Result Raised A
raise_or none a = ok a
raise_or (some x) a = err x

abbrev pub failure_events : Option Raised → List ChatTurnEvent
failure_events none = []
failure_events (some x) =
    persistence_failed "This message could not be saved. It may not be here after a reload." ∷ []

abbrev pub raised_as : Texts → Raised → Raised
raised_as texts (request_failed status detail) =
    other_error "ChatServiceUnavailable" (texts.request_failed_text status detail)
raised_as texts (other_error name text) = other_error name text

-- A generator that has run: what it yielded, how it ended, and the world.
pub record Ran (Time : Type 0) : Type 0 where
  pub events : List ChatTurnEvent
  pub result : Result Raised (Unit {0})
  pub world : World Time

-- `tools` are the caller's, or `DEFAULT_TOOL_SCHEMAS`.
module _ {Time : Type 0} where
  -- `save_history`, whose exception is logged and swallowed.
  abbrev pub save : Option Raised → List Message → World Time → World Time
  save none history w = record w { cached = history }
  save (some x) history w = w

  -- The truth of a list, and what is done with a rebuilt history.
  abbrev pub cache_rebuilt : Option Raised → List Message → World Time → World Time
  cache_rebuilt failed [] w = w
  cache_rebuilt failed (m ∷ history) w = save failed (m ∷ history) w

  module _ (count_tokens : String → ℕ) (token_budget : ℕ) where
    abbrev pub rebuilt :
        Outcomes Time → Result Raised (List Message) → World Time → List Message × World Time
    rebuilt o (err x) w = ([], w)
    rebuilt o (ok history) w = (history, cache_rebuilt o.save_rebuilt history w)

    abbrev pub from_cache :
        Outcomes Time
        → Result Raised (List Message)
        → World Time
        → Result Raised (List Message) × World Time
    from_cache o (err x) w = (err x, w)
    from_cache o (ok (m ∷ history)) w = (ok (m ∷ history), w)
    from_cache o (ok []) w =
        let (history, after) =
          rebuilt o
            (raise_or o.list_prompt_turns (rebuild count_tokens token_budget (prompt_rows w.rows)))
            w in
        (ok history, after)

    unfoldable pub load_prompt_history :
        Outcomes Time → World Time → Result Raised (List Message) × World Time
    load_prompt_history o w = from_cache o (raise_or o.get_history w.cached) w

  abbrev pub append_row :
      MessageRole → String → List (String × String × Fields) → World Time → World Time
  append_row role content widgets w = record w {
    rows = w.rows ++ record { message = message role content; widgets = widgets } ∷ [];
  }

  -- The row of the conversation exists: `start_turn` has made it.
  abbrev pub touch_row : Time → World Time → World Time
  touch_row now w = record w { updated_at = some now }

  -- The transaction of the reply: the exception that was caught, `touched_at`, and the world.
  abbrev pub committed :
      Option Raised → Time → World Time → World Time → Option Raised × Option Time × World Time
  committed none now new old = (none, some now, new)
  committed (some x) now new old = (some x, some now, old)

  abbrev pub touched_then :
      Option Raised
      → Outcomes Time
      → World Time
      → World Time
      → Option Raised × Option Time × World Time
  touched_then none o new old = committed o.commit o.now (touch_row o.now new) old
  touched_then (some x) o new old = (some x, none, old)

  abbrev pub appended_then :
      Option Raised
      → Outcomes Time
      → World Time
      → World Time
      → Option Raised × Option Time × World Time
  appended_then none o new old = touched_then o.touch o new old
  appended_then (some x) o new old = (some x, none, old)

  unfoldable pub persist_reply :
      Outcomes Time
      → String
      → List (String × String × Fields)
      → World Time
      → Option Raised × Option Time × World Time
  persist_reply o content widgets w =
      appended_then o.append_message o (append_row MessageRole.assistant content widgets w) w

  abbrev pub announce : Option Raised → Time → World Time → World Time
  announce none at w = record w { touched = w.touched ++ at ∷ [] }
  announce (some x) at w = w

  -- `publish_conversation_touched`
  unfoldable pub publish_conversation_touched :
      Option Raised → Option Time → World Time → World Time
  publish_conversation_touched failed none w = w
  publish_conversation_touched failed (some at) w = announce failed at w

  -- The end of the turn, for a result of the loop.
  unfoldable pub conclude :
      Texts
      → Outcomes Time
      → String
      → List Message
      → List ChatTurnEvent
      → TurnResult × List Segment
      → World Time
      → Ran Time
  unfolding persist_reply publish_conversation_touched
  conclude texts o conversation_id history forwarded (result, segments) w =
      let reply = reply_content texts result in
      let parts = segments_of texts result segments in
      let (caught, touched_at, written) = persist_reply o reply (widgets_of parts) w in
      record {
        events =
            forwarded
            ++ cap_events result
            ++ failure_events caught
            ++ message_done conversation_id reply (model_of result) parts ∷ [];
        result = ok tt;
        world =
            save o.save_history (history ++ message MessageRole.assistant reply ∷ [])
              (publish_conversation_touched o.xadd touched_at written);
      }

  abbrev pub unresolved_or :
      Texts
      → Outcomes Time
      → String
      → List Message
      → List ChatTurnEvent
      → Option (TurnResult × List Segment)
      → World Time
      → Ran Time
  unresolved_or texts o conversation_id history forwarded none w = record {
    events = forwarded;
    result =
        err (other_error "ChatServiceUnavailable" "Tool-execution loop ended without a result");
    world = w;
  }
  unresolved_or texts o conversation_id history forwarded (some resolved) w =
      conclude texts o conversation_id history forwarded resolved w

  -- After the loop: its exception goes on, an `OpenRouterRequestFailed` as `ChatServiceUnavailable`.
  abbrev pub after_run :
      Texts
      → Outcomes Time
      → String
      → List Message
      → Result Raised (Unit {0}) × Turn
      → World Time
      → Ran Time
  after_run texts o conversation_id history (err x, turn) w = record {
    events = live_events turn.events;
    result = err (raised_as texts x);
    world = w;
  }
  after_run texts o conversation_id history (ok _, turn) w =
      unresolved_or texts o conversation_id history (live_events turn.events)
        (resolution turn.events) w

  module _ {Args : Type 0} (count_tokens : String → ℕ) (token_budget : ℕ) (texts : Texts)
      (lookups : Lookups) (registry : List (String × ToolDefinition Args))
      (client : List CompletionMessage → List Json → CompletionStream) (tools : List Json)
      (conversation_id : String) where
    abbrev pub with_directive :
        Outcomes Time → List Message → Result Raised (Option String) → World Time → Ran Time
    with_directive o history (err x) w = record { events = []; result = err x; world = w }
    with_directive o history (ok directive) w =
        after_run texts o conversation_id history
          (run registry client tools (completion_messages directive history)) w

    abbrev pub with_history :
        Outcomes Time
        → String
        → Option MessageContext
        → Result Raised (List Message) × World Time
        → Ran Time
    with_history o user_message context (err x, w) = record {
      events = [];
      result = err x;
      world = w;
    }
    with_history o user_message context (ok history, w) =
        with_directive o (history ++ message MessageRole.user user_message ∷ [])
          (build_match_directive lookups context) w

    unfoldable pub send_message :
        Outcomes Time → String → Option MessageContext → World Time → Ran Time
    unfolding load_prompt_history conclude
    send_message o user_message context w =
        with_history o user_message context (load_prompt_history count_tokens token_budget o w)
