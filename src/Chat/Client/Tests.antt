-- ===== src/Chat/Client/Tests.antt =====
-- A wire whose payloads are letters, and the theorems of this folder at two calls whose pieces
-- alternate.
use fifa_world_cup_ai_agent.Prelude.{
  ℕ, ◌≡◌, refl, String, false, Bool-cases, inl, inr, Option, none, some, List, [], ◌∷◌, ◌++◌, map,
  arith, if◌then◌else◌, str_eq, ◌==◌,
}
use fifa_world_cup_ai_agent.Chat.ToolLoop.{fresh_aggregator}
use fifa_world_cup_ai_agent.Chat.ToolLoop.Stream.{absorb_all}
use fifa_world_cup_ai_agent.Chat.Client.{
  ToolCallDelta, RawChunk, Wire, payload_of, read_lines, accumulate_all, assembled_calls,
}
use fifa_world_cup_ai_agent.Chat.Client.Fragments.{of_index}
use fifa_world_cup_ai_agent.Chat.Client.Reassembly.{
  CutCall, first_delta, later_delta, in_order, whole, assembled_calls-cut,
}
use fifa_world_cup_ai_agent.Chat.Client.Lines.{line_deltas, stream-calls}

abbrev search : CutCall
search = record {
  id = "c1";
  name = "search_players";
  first = "";
  later = "{\"name\":" ∷ " \"Luis\"}" ∷ [];
}

abbrev rank : CutCall
rank = record { id = "c2"; name = "rank_players"; first = "{}"; later = "" ∷ [] }

abbrev carrying : List ToolCallDelta → Option String → RawChunk
carrying ds reason = record {
  choices =
      record {
        delta = some (record { content = none; reasoning = some "hm"; tool_calls = ds });
        finish_reason = reason;
      }
      ∷ [];
  model = some "model";
  cached_tokens = none;
  cache_write_tokens = none;
}

abbrev payloads : List (String × RawChunk)
payloads =
    ("a", carrying (first_delta 1 rank ∷ first_delta 0 search ∷ []) none)
    ∷ ("b", carrying (later_delta 0 "{\"name\":" ∷ []) none)
    ∷ ("c", carrying (later_delta 1 "" ∷ later_delta 0 " \"Luis\"}" ∷ []) (some "tool_calls"))
    ∷ []

abbrev find : String → List (String × RawChunk) → Option RawChunk
find s [] = none
find s ((t, raw) ∷ rest) = if str_eq t s then some raw else find s rest

abbrev wire : Wire
wire = record { strip = λ s. s; loads = λ s. find s payloads; validation_text = λ s. s }

abbrev calls : List CutCall
calls = search ∷ rank ∷ []

abbrev before : List String
before = "data:a" ∷ ": keep-alive" ∷ "data:b" ∷ "" ∷ "data:{" ∷ []

abbrev rest : List String
rest = "" ∷ "data:[DONE]" ∷ []

abbrev pieces : List ToolCallDelta
pieces =
    first_delta 1 rank
    ∷ first_delta 0 search
    ∷ later_delta 0 "{\"name\":"
    ∷ later_delta 1 ""
    ∷ later_delta 0 " \"Luis\"}"
    ∷ []

pieces_of_calls : (i : ℕ) → of_index i pieces ≡ of_index i (in_order 0 calls)
pieces_of_calls i = elim (Bool-cases (0 == i)) [
  | inl a ↦ let b : (1 == i) ≡ false = ground (arith, a) in rw (a, b) refl
  | inr a ↦ rw a refl
]

assembled_calls-cut_example : assembled_calls (accumulate_all pieces []) ≡ map whole calls
assembled_calls-cut_example =
    assembled_calls-cut calls pieces ((refl, refl), ((refl, refl), tt)) pieces_of_calls

line_pieces : line_deltas wire (before ++ "data:c" ∷ []) ≡ pieces
unfolding payload_of
line_pieces = refl

stream-calls_example :
    (absorb_all
      (read_lines wire (before ++ "data:c" ∷ rest) none []).chunks
      fresh_aggregator).tool_calls
    ≡ map whole calls
unfolding payload_of read_lines
stream-calls_example =
    stream-calls wire calls before rest "data:c" "tool_calls" fresh_aggregator
      ((refl, refl), ((refl, refl), tt)) pieces_of_calls refl (refl, (refl, tt)) refl
