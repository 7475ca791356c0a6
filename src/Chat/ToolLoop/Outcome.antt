-- ===== src/Chat/ToolLoop/Outcome.antt =====
-- How a run of the tool loop ends, and that what it streamed is what it resolves to.
use fifa_world_cup_ai_agent.Prelude.{
  ◌≡◌, refl, sym, ap, ◌∙◌, ℕ, zero, suc, List, [], ◌∷◌, ◌++◌, append-nil, map, inl, inr, Option,
  none, some, join, String, Begins, All, All-append, Result-cases, Bool-cases,
}
use fifa_world_cup_ai_agent.Json.{Json}
use fifa_world_cup_ai_agent.Chat.Completion.{
  ChatCompletionChunk, ToolCall, Raised, CompletionStream,
}
use fifa_world_cup_ai_agent.Chat.ToolLoop.Defs.{
  ToolWidgetResult, CompletionMessage, ToolDefinition, Segment, TurnResult, completed,
  ToolLoopEvent, reasoning_delta, content_delta, tool_call_requested, turn_resolved, max_iterations,
  present, fresh_aggregator, finalize, execute_tool_call, assistant_tool_call_message,
}
use fifa_world_cup_ai_agent.Chat.ToolLoop.Loop.{
  Turn, deltas, conclude, complete, run_calls, resolve_capped, iterate, run, widget_segments,
  widget_events, text_segments, is_final,
}
use fifa_world_cup_ai_agent.Chat.ToolLoop.Stream.{
  delta_events, contents, emitted, forward_lem, absorb_all, absorb_all-contents, finalize-content,
}
use fifa_world_cup_ai_agent.Chat.ToolLoop.Rules.{Ensures, Ensures-bind}
use fifa_world_cup_ai_agent.Chat.ToolLoop.Visible.{
  letters, seen_events, seen_segments, seen_events-append, seen_segments-append, seen-delta_events,
  seen-text_segments, seen-widget,
}

-- An event that leaves the turn open.
abbrev pub IsLive : ToolLoopEvent → Type 0
IsLive (turn_resolved r ss) = ⊥
IsLive _ = Unit

-- Between two steps of the loop: no terminal event yet, and the events show what the segments show.
pub record InStep (t : Turn) : Type 0 where
  pub live : All IsLive t.events
  pub same : seen_events t.events ≡ seen_segments t.segments

-- After an exception: no terminal event, and the events show the segments and perhaps more.
pub record Interrupted (t : Turn) : Type 0 where
  pub live : All IsLive t.events
  pub ahead : Begins (seen_segments t.segments) (seen_events t.events)

-- At the end: one terminal event, the last, with the segments; what the earlier ones show is what
-- the segments show.
pub record Resolved (t : Turn) : Type 0 where
  pub earlier : List ToolLoopEvent
  pub result : TurnResult
  pub ends : t.events ≡ earlier ++ turn_resolved result t.segments ∷ []
  pub live : All IsLive earlier
  pub same : seen_events earlier ≡ seen_segments t.segments

IsLive-reasoning : (ss : List String) → All IsLive (map reasoning_delta ss)
IsLive-reasoning [] = tt
IsLive-reasoning (s ∷ ss) = (tt, IsLive-reasoning ss)

IsLive-content : (ss : List String) → All IsLive (map content_delta ss)
IsLive-content [] = tt
IsLive-content (s ∷ ss) = (tt, IsLive-content ss)

IsLive-delta_events : (cs : List ChatCompletionChunk) → All IsLive (delta_events cs)
IsLive-delta_events [] = tt
IsLive-delta_events (c ∷ cs) =
    All-append IsLive (deltas c) (delta_events cs)
      (All-append IsLive (map reasoning_delta (present c.delta_reasoning))
        (map content_delta (present c.delta_content)) (IsLive-reasoning (present c.delta_reasoning))
        (IsLive-content (present c.delta_content)))
      (IsLive-delta_events cs)

IsLive-widget : (w : Option ToolWidgetResult) → All IsLive (widget_events w)
IsLive-widget none = tt
IsLive-widget (some w) = (tt, tt)

InStep-Interrupted : (t : Turn) → InStep t → Interrupted t
InStep-Interrupted t h = record {
  live = h.live;
  ahead = ([], h.same ∙ sym (append-nil (seen_segments t.segments)));
}

-- After a stream has been forwarded, the events are ahead by the text of its contents.
forwarded :
    (cs : List ChatCompletionChunk) (t : Turn)
    → InStep t
    → seen_events (t.events ++ delta_events cs)
      ≡ seen_segments t.segments ++ letters (join (contents cs))
forwarded cs t h =
    seen_events-append t.events (delta_events cs)
    ∙ ap (λ l. l ++ seen_events (delta_events cs)) h.same
    ∙ ap (λ l. seen_segments t.segments ++ l) (seen-delta_events cs)

forwarded-Interrupted :
    (cs : List ChatCompletionChunk) (t : Turn)
    → InStep t
    → Interrupted (emitted t (delta_events cs))
forwarded-Interrupted cs t h = record {
  live = All-append IsLive t.events (delta_events cs) h.live (IsLive-delta_events cs);
  ahead = (letters (join (contents cs)), forwarded cs t h);
}

-- The text segment of a completion shows its content.
concluded :
    (ss : List Segment) (content s : String)
    → content ≡ s
    → seen_segments (ss ++ text_segments content) ≡ seen_segments ss ++ letters s
concluded ss content s e =
    seen_segments-append ss (text_segments content)
    ∙ ap (λ l. seen_segments ss ++ l) (seen-text_segments content ∙ ap letters e)

conclude-InStep :
    (f : Option Raised) (cs : List ChatCompletionChunk) (t : Turn)
    → InStep t
    → Ensures
        (λ _ u. InStep u)
        Interrupted
        (conclude f (absorb_all cs fresh_aggregator) (emitted t (delta_events cs)))
unfolding conclude
conclude-InStep (some e) cs t h = forwarded-Interrupted cs t h
conclude-InStep none cs t h = elim (Result-cases (finalize (absorb_all cs fresh_aggregator))) [
  | inl (result, e) ↦ rw e (record {
    live = All-append IsLive t.events (delta_events cs) h.live (IsLive-delta_events cs);
    same =
        forwarded cs t h
        ∙ sym (
            concluded t.segments result.content (join (contents cs)) (
              finalize-content (absorb_all cs fresh_aggregator) result e
              ∙ ap join (absorb_all-contents cs fresh_aggregator)));
  })
  | inr (x, e) ↦ rw e (forwarded-Interrupted cs t h)
]

asked :
    (t : Turn) (name : String)
    → InStep t
    → seen_events (t.events ++ tool_call_requested name ∷ []) ≡ seen_segments t.segments
asked t name h =
    seen_events-append t.events (tool_call_requested name ∷ [])
    ∙ append-nil (seen_events t.events)
    ∙ h.same

requested :
    (t : Turn) (name : String) → InStep t → InStep (emitted t (tool_call_requested name ∷ []))
requested t name h = record {
  live = All-append IsLive t.events (tool_call_requested name ∷ []) h.live (tt, tt);
  same = asked t name h;
}

noted :
    (t : Turn) (m : CompletionMessage)
    → InStep t
    → InStep (record t { messages = t.messages ++ m ∷ [] })
noted t m h = record { live = h.live; same = h.same }

resolved :
    (t : Turn) (r : TurnResult)
    → InStep t
    → Resolved (record t { events = t.events ++ turn_resolved r t.segments ∷ [] })
resolved t r h = record {
  earlier = t.events;
  result = r;
  ends = refl;
  live = h.live;
  same = h.same;
}

module _ {Args : Type 0} (registry : List (String × ToolDefinition Args)) where
  -- One answered tool call: its widget goes out live and becomes a segment.
  answered :
      (t : Turn) (name : String) (m : CompletionMessage) (w : Option ToolWidgetResult)
      → InStep t
      → InStep (record {
        events = (t.events ++ tool_call_requested name ∷ []) ++ widget_events w;
        messages = t.messages ++ m ∷ [];
        segments = t.segments ++ widget_segments w;
      })
  answered t name m w h = record {
    live =
        All-append IsLive (t.events ++ tool_call_requested name ∷ []) (widget_events w)
          (All-append IsLive t.events (tool_call_requested name ∷ []) h.live (tt, tt))
          (IsLive-widget w);
    same =
        seen_events-append (t.events ++ tool_call_requested name ∷ []) (widget_events w)
        ∙ ap (λ l. l ++ seen_events (widget_events w)) (asked t name h)
        ∙ ap (λ l. seen_segments t.segments ++ l) (seen-widget w)
        ∙ sym (seen_segments-append t.segments (widget_segments w));
  }

  run_calls-InStep :
      (calls : List ToolCall) (t : Turn)
      → InStep t
      → Ensures (λ _ u. InStep u) Interrupted (run_calls registry calls t)
  unfolding run_calls
  run_calls-InStep [] t h = h
  run_calls-InStep (call ∷ calls) t h = elim (Result-cases (execute_tool_call registry call)) [
    | inl ((m, w), e) ↦ rw e (run_calls-InStep calls _ (answered t call.name m w h))
    | inr (x, e) ↦ rw e (InStep-Interrupted _ (requested t call.name h))
  ]

  module _ (client : List CompletionMessage → List Json → CompletionStream)
      (tools : List Json) where
    complete-InStep :
        (t : Turn) → InStep t → Ensures (λ _ u. InStep u) Interrupted (complete client tools t)
    unfolding complete
    complete-InStep t h =
        let stream = client t.messages tools in
        rw (forward_lem stream.chunks fresh_aggregator t)
          (conclude-InStep stream.failure stream.chunks t h)

    iterate-Resolved :
        (n : ℕ) (t : Turn)
        → InStep t
        → Ensures (λ _ u. Resolved u) Interrupted (iterate registry client tools n t)
    unfolding iterate resolve_capped
    iterate-Resolved zero t h = resolved t _ h
    iterate-Resolved (suc n) t h =
        Ensures-bind (λ _ u. InStep u) (λ _ u. Resolved u) Interrupted (complete client tools) _ t
          (complete-InStep t h)
          (λ result u k. elim (Bool-cases (is_final result)) [
            | inl e ↦ rw e (resolved u (completed result) k)
            | inr e ↦ rw e (
                Ensures-bind (λ _ v. InStep v) (λ _ v. Resolved v) Interrupted
                  (run_calls registry result.tool_calls) (λ _. iterate registry client tools n) _
                  (run_calls-InStep result.tool_calls _
                    (noted u (assistant_tool_call_message result) k))
                  (λ _ v hv. iterate-Resolved n v hv))
          ])

    -- A run that returns has yielded exactly one terminal event, as its last, and what the events
    -- before it showed, character by character and widget by widget, is what its segments show, in
    -- the same order. A run that raises has yielded no terminal event, and its events show at least
    -- the segments.
    pub run-Resolved :
        (messages : List CompletionMessage)
        → Ensures (λ _ u. Resolved u) Interrupted (run registry client tools messages)
    unfolding run
    run-Resolved messages = iterate-Resolved max_iterations _ (record { live = tt; same = refl })
