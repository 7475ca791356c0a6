-- ===== src/Chat/ToolLoop/Stream.antt =====
-- Forwarding a stream: the deltas go out as they arrive, and the aggregator collects the same text.
use fifa_world_cup_ai_agent.Prelude.{
  ◌≡◌, sym, ap, ◌∙◌, List, [], ◌∷◌, ◌++◌, append_assoc, append-nil, ok, join, String, arith,
}
use fifa_world_cup_ai_agent.Chat.Completion.{ChatCompletionChunk, ChatCompletionResult}
use fifa_world_cup_ai_agent.Chat.ToolLoop.Defs.{
  ToolLoopEvent, ChunkAggregator, present, absorb, finalize,
}
use fifa_world_cup_ai_agent.Chat.ToolLoop.Loop.{Turn, deltas, forward}

abbrev pub absorb_all : List ChatCompletionChunk → ChunkAggregator → ChunkAggregator
absorb_all [] a = a
absorb_all (c ∷ cs) a = absorb_all cs (absorb c a)

abbrev pub delta_events : List ChatCompletionChunk → List ToolLoopEvent
delta_events [] = []
delta_events (c ∷ cs) = deltas c ++ delta_events cs

abbrev pub contents : List ChatCompletionChunk → List String
contents [] = []
contents (c ∷ cs) = present c.delta_content ++ contents cs

abbrev pub emitted : Turn → List ToolLoopEvent → Turn
emitted t es = record t { events = t.events ++ es }

pub forward_lem :
    (cs : List ChatCompletionChunk) (a : ChunkAggregator) (t : Turn)
    → forward cs a t ≡ (ok (absorb_all cs a), emitted t (delta_events cs))
unfolding forward
forward_lem [] a t = ap (λ es. (ok a, record t { events = es })) (sym (append-nil t.events))
forward_lem (c ∷ cs) a t =
    forward_lem cs (absorb c a) (emitted t (deltas c))
    ∙ ap (λ es. (ok (absorb_all cs (absorb c a)), record t { events = es }))
        (append_assoc t.events (deltas c) (delta_events cs))

-- The aggregator's parts are the contents of the chunks, in order.
pub absorb_all-contents :
    (cs : List ChatCompletionChunk) (a : ChunkAggregator)
    → (absorb_all cs a).content_parts ≡ a.content_parts ++ contents cs
unfolding absorb
absorb_all-contents [] a = sym (append-nil a.content_parts)
absorb_all-contents (c ∷ cs) a =
    absorb_all-contents cs (absorb c a)
    ∙ append_assoc a.content_parts (present c.delta_content) (contents cs)

pub finalize-content :
    (a : ChunkAggregator) (result : ChatCompletionResult)
    → finalize a ≡ ok result
    → result.content ≡ join a.content_parts
unfolding finalize
finalize-content a result h = ground arith
