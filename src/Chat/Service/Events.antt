-- ===== src/Chat/Service/Events.antt =====
-- What a turn yields, and what it writes to Postgres.
use fifa_world_cup_ai_agent.Prelude.{
  ◌≡◌, String, Option, List, [], ◌∷◌, ◌++◌, All, Result, ok, err, ℕ, last?, none, some, ◌<>◌,
}
use fifa_world_cup_ai_agent.Json.{Json, Fields}
use fifa_world_cup_ai_agent.Chat.Completion.{Raised, CompletionStream}
use fifa_world_cup_ai_agent.Chat.ToolLoop.{
  Segment, TurnResult, completed, capped, ToolWidgetResult, turn_resolved, CompletionMessage,
  ToolDefinition, Turn, run,
}
use fifa_world_cup_ai_agent.Chat.ToolLoop.Visible.{seen_segments}
use fifa_world_cup_ai_agent.Chat.Events.{
  ChatTurnEvent, message_done, cap_reached, persistence_failed,
}
use fifa_world_cup_ai_agent.Chat.Service.Parts.{Texts, Lookups}
use fifa_world_cup_ai_agent.Chat.Service.{World, Outcomes, Ran}
use fifa_world_cup_ai_agent.Chat.Service.Shown.{IsForwarded, seen_turn}
use fifa_world_cup_ai_agent.Chat.Service.Rows.{rows_after, reply_row}

-- The tool loop, on the messages of a prompt.
abbrev pub Loop : Type 0
Loop = List CompletionMessage → Result Raised (Unit {0}) × Turn

-- What a turn says at its end: the completion's text, model and segments; or, at the cap, the texts
-- so far with the request to clarify below them, announced by an event, and as the one segment.
abbrev pub Spoken :
    Texts
    → TurnResult
    → List Segment
    → List ChatTurnEvent
    → String
    → Option String
    → List Segment
    → Type 0
Spoken texts (completed result) segments cap reply model parts =
    (cap ≡ []) × (reply ≡ result.content) × (model ≡ some result.model) × (parts ≡ segments)
Spoken texts (capped c) segments cap reply model parts =
    (cap ≡ cap_reached c.partial_content c.clarification ∷ [])
    × (reply ≡ texts.strip (c.partial_content <> "\n\n" <> c.clarification))
    × (model ≡ none)
    × (parts ≡ Segment.text reply ∷ [])

-- A failure that was caught is announced by one event.
abbrev pub Announced : Option Raised → List ChatTurnEvent → Type 0
Announced none failure = failure ≡ []
Announced (some x) failure =
    failure
    ≡ persistence_failed "This message could not be saved. It may not be here after a reload." ∷ []

-- The widgets among the segments, each with its tool, its type and its payload.
pub data Widgets : List Segment → List (String × String × Fields) → Type 0 where
  done : Widgets [] []
  past_text :
      (s : String) (segments : List Segment) (widgets : List (String × String × Fields))
      → Widgets segments widgets
      → Widgets (Segment.text s ∷ segments) widgets
  shown :
      (w : ToolWidgetResult) (segments : List Segment) (widgets : List (String × String × Fields))
      → Widgets segments widgets
      → Widgets (Segment.widget w ∷ segments) ((w.tool_name, w.widget_type, w.payload) ∷ widgets)

module _ {Time : Type 0} where
  -- A turn that has ended: what it yielded and what it left in Postgres.
  pub record Finished (texts : Texts) (loop : Loop) (conversation_id : String) (w : World Time)
      (ran : Ran Time) : Type 0 where
    pub messages : List CompletionMessage
    pub forwarded : List ChatTurnEvent
    pub result : TurnResult
    pub segments : List Segment
    pub caught : Option Raised
    pub cap : List ChatTurnEvent
    pub failure : List ChatTurnEvent
    pub reply : String
    pub model : Option String
    pub parts : List Segment
    pub widgets : List (String × String × Fields)
    pub ended : last? (loop messages).1.events ≡ some (turn_resolved result segments)
    pub yields :
        ran.events
        ≡ forwarded ++ cap ++ failure ++ message_done conversation_id reply model parts ∷ []
    pub live : All IsForwarded forwarded
    pub shown : seen_turn forwarded ≡ seen_segments segments
    pub spoken : Spoken texts result segments cap reply model parts
    pub announced : Announced caught failure
    pub saved : Widgets parts widgets
    pub written : ran.world.rows ≡ rows_after caught (reply_row reply widgets) w.rows

  -- Of a turn that raised: nothing but events of the loop, and the rows as they were.
  pub record Broken (w : World Time) (ran : Ran Time) : Type 0 where
    pub live : All IsForwarded ran.events
    pub rows : ran.world.rows ≡ w.rows

  abbrev pub TurnOutcome :
      Texts → Loop → String → World Time → Ran Time → Result Raised (Unit {0}) → Type 0
  TurnOutcome texts loop conversation_id w ran (ok u) = Finished texts loop conversation_id w ran
  TurnOutcome texts loop conversation_id w ran (err x) = Broken w ran

  -- The rows of a world are those of another.
  abbrev SameRows : World Time → World Time → Type 0
  SameRows v w = v.rows ≡ w.rows

module _ {Time Args : Type 0} (count_tokens : String → ℕ) (token_budget : ℕ) (texts : Texts)
    (lookups : Lookups) (registry : List (String × ToolDefinition Args))
    (client : List CompletionMessage → List Json → CompletionStream) (tools : List Json)
    (conversation_id : String) (o : Outcomes Time) (w : World Time) where
  abbrev HasOutcome : Ran Time → Type 0
  HasOutcome ran = TurnOutcome texts (run registry client tools) conversation_id w ran ran.result
