-- ===== src/Chat/Service/Shown.antt =====
-- The events that a turn passes on, and what they show.
use fifa_world_cup_ai_agent.Prelude.{◌≡◌, refl, ap, some, List, [], ◌∷◌, ◌++◌, All, inr}
use fifa_world_cup_ai_agent.Chat.ToolLoop.{Segment, TurnResult, ToolLoopEvent, turn_resolved}
use fifa_world_cup_ai_agent.Chat.ToolLoop.Visible.{Atom, letters, seen_events}
use fifa_world_cup_ai_agent.Chat.ToolLoop.Outcome.{IsLive}
use fifa_world_cup_ai_agent.Chat.Events.{ChatTurnEvent}
use fifa_world_cup_ai_agent.Chat.Service.Parts.{live_events, resolution}

-- An event that the turn passes on from the tool loop.
abbrev pub IsForwarded : ChatTurnEvent → Type 0
IsForwarded (ChatTurnEvent.cap_reached content clarification) = ⊥
IsForwarded (ChatTurnEvent.persistence_failed detail) = ⊥
IsForwarded (ChatTurnEvent.message_done conversation_id content model segments) = ⊥
IsForwarded _ = Unit

-- What a reader of the turn's events sees of the answer.
abbrev pub seen_turn_event : ChatTurnEvent → List Atom
seen_turn_event (ChatTurnEvent.content_delta s) = letters s
seen_turn_event (ChatTurnEvent.widget_ready w) = inr w ∷ []
seen_turn_event _ = []

abbrev pub seen_turn : List ChatTurnEvent → List Atom
seen_turn [] = []
seen_turn (e ∷ es) = seen_turn_event e ++ seen_turn es

pub live-IsForwarded : (es : List ToolLoopEvent) → All IsForwarded (live_events es)
live-IsForwarded [] = tt
live-IsForwarded (ToolLoopEvent.reasoning_delta s ∷ es) = (tt, live-IsForwarded es)
live-IsForwarded (ToolLoopEvent.content_delta s ∷ es) = (tt, live-IsForwarded es)
live-IsForwarded (ToolLoopEvent.tool_call_requested s ∷ es) = (tt, live-IsForwarded es)
live-IsForwarded (ToolLoopEvent.widget_ready w ∷ es) = (tt, live-IsForwarded es)
live-IsForwarded (ToolLoopEvent.turn_resolved r ss ∷ es) = live-IsForwarded es

pub seen-live : (es : List ToolLoopEvent) → seen_turn (live_events es) ≡ seen_events es
seen-live [] = refl
seen-live (ToolLoopEvent.reasoning_delta s ∷ es) = seen-live es
seen-live (ToolLoopEvent.content_delta s ∷ es) = ap (λ l. letters s ++ l) (seen-live es)
seen-live (ToolLoopEvent.tool_call_requested s ∷ es) = seen-live es
seen-live (ToolLoopEvent.widget_ready w ∷ es) = ap (λ l. inr w ∷ l) (seen-live es)
seen-live (ToolLoopEvent.turn_resolved r ss ∷ es) = seen-live es

pub live-snoc :
    (es : List ToolLoopEvent) (r : TurnResult) (ss : List Segment)
    → live_events (es ++ turn_resolved r ss ∷ []) ≡ live_events es
live-snoc [] r ss = refl
live-snoc (ToolLoopEvent.reasoning_delta s ∷ es) r ss =
    ap (λ l. ChatTurnEvent.reasoning_delta s ∷ l) (live-snoc es r ss)
live-snoc (ToolLoopEvent.content_delta s ∷ es) r ss =
    ap (λ l. ChatTurnEvent.content_delta s ∷ l) (live-snoc es r ss)
live-snoc (ToolLoopEvent.tool_call_requested s ∷ es) r ss =
    ap (λ l. ChatTurnEvent.tool_call_requested s ∷ l) (live-snoc es r ss)
live-snoc (ToolLoopEvent.widget_ready w ∷ es) r ss =
    ap (λ l. ChatTurnEvent.widget_ready w ∷ l) (live-snoc es r ss)
live-snoc (ToolLoopEvent.turn_resolved q qs ∷ es) r ss = live-snoc es r ss

pub resolution-snoc :
    (es : List ToolLoopEvent) (r : TurnResult) (ss : List Segment)
    → All IsLive es
    → resolution (es ++ turn_resolved r ss ∷ []) ≡ some (r, ss)
resolution-snoc [] r ss h = refl
resolution-snoc (ToolLoopEvent.reasoning_delta s ∷ es) r ss h = resolution-snoc es r ss h.1
resolution-snoc (ToolLoopEvent.content_delta s ∷ es) r ss h = resolution-snoc es r ss h.1
resolution-snoc (ToolLoopEvent.tool_call_requested s ∷ es) r ss h = resolution-snoc es r ss h.1
resolution-snoc (ToolLoopEvent.widget_ready w ∷ es) r ss h = resolution-snoc es r ss h.1
resolution-snoc (ToolLoopEvent.turn_resolved q qs ∷ es) r ss h = absurd h.0
