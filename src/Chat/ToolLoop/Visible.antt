-- ===== src/Chat/ToolLoop/Visible.antt =====
-- What a reader of the live events sees, and what a reader of the resolved turn sees: characters of
-- the answer and widgets, in order.
use fifa_world_cup_ai_agent.Prelude.{
  ◌≡◌, refl, sym, ap, ◌∙◌, List, [], ◌∷◌, ◌++◌, append_assoc, append-nil, map, map-append, ◌⊎◌, inl,
  inr, Option, none, some, join, join-append, ◌<>◌, String, Char, chars, chars-append, str_eq,
  str_eq_iff, Bool-cases,
}
use fifa_world_cup_ai_agent.Chat.Completion.{ChatCompletionChunk}
use fifa_world_cup_ai_agent.Chat.ToolLoop.Defs.{
  ToolWidgetResult, Segment, text, widget, ToolLoopEvent, reasoning_delta, content_delta,
  tool_call_requested, widget_ready, turn_resolved, present,
}
use fifa_world_cup_ai_agent.Chat.ToolLoop.Loop.{
  deltas, widget_segments, widget_events, text_segments,
}
use fifa_world_cup_ai_agent.Chat.ToolLoop.Stream.{delta_events, contents}

abbrev pub Atom : Type 0
Atom = Char ⊎ ToolWidgetResult

abbrev pub letters : String → List Atom
letters s = map inl (chars s)

pub letters-append : (s t : String) → letters (s <> t) ≡ letters s ++ letters t
letters-append s t = ap (map inl) (chars-append s t) ∙ map-append inl (chars s) (chars t)

-- One event, as the reader of the stream sees it.
abbrev pub seen_event : ToolLoopEvent → List Atom
seen_event (content_delta s) = letters s
seen_event (widget_ready w) = inr w ∷ []
seen_event (reasoning_delta s) = []
seen_event (tool_call_requested s) = []
seen_event (turn_resolved r ss) = []

abbrev pub seen_events : List ToolLoopEvent → List Atom
seen_events [] = []
seen_events (e ∷ es) = seen_event e ++ seen_events es

abbrev pub seen_segment : Segment → List Atom
seen_segment (text s) = letters s
seen_segment (widget w) = inr w ∷ []

abbrev pub seen_segments : List Segment → List Atom
seen_segments [] = []
seen_segments (s ∷ ss) = seen_segment s ++ seen_segments ss

pub seen_events-append :
    (xs ys : List ToolLoopEvent) → seen_events (xs ++ ys) ≡ seen_events xs ++ seen_events ys
seen_events-append [] ys = refl
seen_events-append (x ∷ xs) ys =
    ap (λ l. seen_event x ++ l) (seen_events-append xs ys)
    ∙ sym (append_assoc (seen_event x) (seen_events xs) (seen_events ys))

pub seen_segments-append :
    (xs ys : List Segment) → seen_segments (xs ++ ys) ≡ seen_segments xs ++ seen_segments ys
seen_segments-append [] ys = refl
seen_segments-append (x ∷ xs) ys =
    ap (λ l. seen_segment x ++ l) (seen_segments-append xs ys)
    ∙ sym (append_assoc (seen_segment x) (seen_segments xs) (seen_segments ys))

seen-reasoning : (ss : List String) → seen_events (map reasoning_delta ss) ≡ []
seen-reasoning [] = refl
seen-reasoning (s ∷ ss) = seen-reasoning ss

seen-content : (ss : List String) → seen_events (map content_delta ss) ≡ letters (join ss)
seen-content [] = refl
seen-content (s ∷ ss) =
    ap (λ l. letters s ++ l) (seen-content ss) ∙ sym (letters-append s (join ss))

seen-deltas :
    (c : ChatCompletionChunk) → seen_events (deltas c) ≡ letters (join (present c.delta_content))
seen-deltas c =
    seen_events-append (map reasoning_delta (present c.delta_reasoning))
      (map content_delta (present c.delta_content))
    ∙ ap (λ l. l ++ seen_events (map content_delta (present c.delta_content)))
        (seen-reasoning (present c.delta_reasoning))
    ∙ seen-content (present c.delta_content)

-- What the deltas of a stream show is the text that the stream's contents make.
pub seen-delta_events :
    (cs : List ChatCompletionChunk) → seen_events (delta_events cs) ≡ letters (join (contents cs))
seen-delta_events [] = refl
seen-delta_events (c ∷ cs) =
    seen_events-append (deltas c) (delta_events cs)
    ∙ ap (λ l. l ++ seen_events (delta_events cs)) (seen-deltas c)
    ∙ ap (λ l. letters (join (present c.delta_content)) ++ l) (seen-delta_events cs)
    ∙ sym (letters-append (join (present c.delta_content)) (join (contents cs)))
    ∙ sym (ap letters (join-append (present c.delta_content) (contents cs)))

pub seen-text_segments : (s : String) → seen_segments (text_segments s) ≡ letters s
seen-text_segments s = elim (Bool-cases (str_eq s "")) [
  | inl e ↦ let p : s ≡ "" = (str_eq_iff s "").0 e in rw p refl
  | inr e ↦ rw e (append-nil (letters s))
]

pub seen-widget :
    (w : Option ToolWidgetResult)
    → seen_events (widget_events w) ≡ seen_segments (widget_segments w)
seen-widget none = refl
seen-widget (some w) = refl
