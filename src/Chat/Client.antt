-- ===== src/Chat/Client.antt =====
-- The streaming client of the LLM: backend/src/infra/openrouter/client.py. The HTTP exchange, the
-- reading of JSON and Python's `strip` are parameters; a payload has the fields that the client
-- reads, each absent where `get` finds none, and a falsy list, text or dict is as an absent one.
pub mod Fragments
pub mod Reassembly
pub mod Lines
mod Tests
use fifa_world_cup_ai_agent.Prelude.{
  ℕ, String, ◌<>◌, Bool, true, false, ◌||◌, not, Option, none, some, List, [], ◌∷◌, ◌++◌, Result,
  ok, err, if◌then◌else◌, str_eq, truthy, ltb, leb, ◌==◌, starts_with, slice, len,
}
use fifa_world_cup_ai_agent.Json.{Json}
use fifa_world_cup_ai_agent.Chat.Completion.{
  FinishReason, stop, tool_calls, length, content_filter, ToolCall, ChatCompletionChunk, Raised,
  request_failed, other_error, CompletionStream,
}
use fifa_world_cup_ai_agent.Chat.ToolLoop.{CompletionMessage, plain}

pub record FunctionDelta : Type 0 where
  pub name : Option String
  pub arguments : Option String

pub record ToolCallDelta : Type 0 where
  pub index : Option ℕ
  pub id : Option String
  pub function : Option FunctionDelta

pub record Delta : Type 0 where
  pub content : Option String
  pub reasoning : Option String
  pub tool_calls : List ToolCallDelta

pub record Choice : Type 0 where
  pub delta : Option Delta
  pub finish_reason : Option String

-- A decoded payload. `cached_tokens` is the one of `usage["prompt_tokens_details"]`.
pub record RawChunk : Type 0 where
  pub choices : List Choice
  pub model : Option String
  pub cached_tokens : Option ℕ
  pub cache_write_tokens : Option ℕ

-- What the client takes from the code around it: `strip`, `json.loads`, whose `none` is the
-- `JSONDecodeError`, and the text of the `ValidationError` of an unknown finish reason.
pub record Wire : Type 0 where
  pub strip : String → String
  pub loads : String → Option RawChunk
  pub validation_text : String → String

pub record Fragment : Type 0 where
  pub id : String
  pub name : String
  pub arguments : String

-- `tool_call_fragments`, in the order of its keys' first use.
abbrev pub Fragments : Type 0
Fragments = List (ℕ × Fragment)

abbrev pub empty_fragment : Fragment
empty_fragment = record { id = ""; name = ""; arguments = "" }

abbrev pub replaced : Option String → String → String
replaced none old = old
replaced (some s) old = if truthy s then s else old

abbrev pub appended : Option String → String → String
appended none old = old
appended (some s) old = if truthy s then old <> s else old

abbrev pub index_of : Option ℕ → ℕ
index_of none = 0
index_of (some i) = i

abbrev pub name_of : Option FunctionDelta → Option String
name_of none = none
name_of (some f) = f.name

abbrev pub arguments_of : Option FunctionDelta → Option String
arguments_of none = none
arguments_of (some f) = f.arguments

-- What a delta does to the fragment of its index.
unfoldable pub update : ToolCallDelta → Fragment → Fragment
update d f = record {
  id = replaced d.id f.id;
  name = replaced (name_of d.function) f.name;
  arguments = appended (arguments_of d.function) f.arguments;
}

-- `fragments.setdefault(index, ...)`, and the change of what is there.
unfoldable pub change : ℕ → (Fragment → Fragment) → Fragments → Fragments
change i f [] = (i, f empty_fragment) ∷ []
change i f ((j, fragment) ∷ fragments) =
    let rest = change i f fragments in
    if j == i then (j, f fragment) ∷ fragments else (j, fragment) ∷ rest

unfoldable pub accumulate_tool_call_fragment : ToolCallDelta → Fragments → Fragments
unfolding change update
accumulate_tool_call_fragment d fragments = change (index_of d.index) (update d) fragments

-- The loop over `delta.get("tool_calls")`.
unfoldable pub accumulate_all : List ToolCallDelta → Fragments → Fragments
unfolding accumulate_tool_call_fragment
accumulate_all [] fragments = fragments
accumulate_all (d ∷ ds) fragments = accumulate_all ds (accumulate_tool_call_fragment d fragments)

-- `sorted(tool_call_fragments.items())`: the keys differ, so that they alone are compared.
unfoldable pub insert_fragment : ℕ × Fragment → Fragments → Fragments
insert_fragment p [] = p ∷ []
insert_fragment p (q ∷ fragments) =
    let rest = insert_fragment p fragments in if ltb p.0 q.0 then p ∷ q ∷ fragments else q ∷ rest

unfoldable pub sort_fragments : Fragments → Fragments
unfolding insert_fragment
sort_fragments [] = []
sort_fragments (p ∷ fragments) = insert_fragment p (sort_fragments fragments)

abbrev pub calls_of : Fragments → List ToolCall
calls_of [] = []
calls_of ((i, f) ∷ fragments) =
    record { id = f.id; name = f.name; arguments = f.arguments } ∷ calls_of fragments

unfoldable pub assembled_calls : Fragments → List ToolCall
unfolding sort_fragments
assembled_calls fragments = calls_of (sort_fragments fragments)

abbrev pub calls_at_end : Option String → Fragments → Option (List ToolCall)
calls_at_end none fragments = none
calls_at_end (some reason) fragments = some (assembled_calls fragments)

-- The values of the `Literal`.
abbrev pub finish_reason_of : String → Option FinishReason
finish_reason_of s =
    if str_eq s "stop"
    then some stop
    else if str_eq s "tool_calls"
    then some FinishReason.tool_calls
    else if str_eq s "length"
    then some length
    else if str_eq s "content_filter"
    then some content_filter
    else none

-- `delta.get("content") or None`
abbrev pub nonempty : Option String → Option String
nonempty none = none
nonempty (some s) = if truthy s then some s else none

abbrev pub delta_or_empty : Option Delta → Delta
delta_or_empty none = record { content = none; reasoning = none; tool_calls = [] }
delta_or_empty (some delta) = delta

module _ (wire : Wire) where
  open wire use {strip, loads, validation_text}

  abbrev pub validated : Option String → Result Raised (Option FinishReason)
  validated none = ok none
  validated (some s) = elim (finish_reason_of s) [
    | none ↦ err (other_error "ValidationError" (validation_text s))
    | some reason ↦ ok (some reason)
  ]

  abbrev pub full_chunk : RawChunk → Choice → Fragments → Option FinishReason → ChatCompletionChunk
  full_chunk raw choice fragments reason = record {
    delta_content = nonempty (delta_or_empty choice.delta).content;
    delta_reasoning = nonempty (delta_or_empty choice.delta).reasoning;
    tool_calls = calls_at_end choice.finish_reason fragments;
    finish_reason = reason;
    model = raw.model;
    cached_tokens = raw.cached_tokens;
    cache_write_tokens = raw.cache_write_tokens;
  }

  abbrev pub chunk_of :
      RawChunk
      → Choice
      → Fragments
      → Result Raised (Option FinishReason)
      → Result Raised (Option ChatCompletionChunk)
  chunk_of raw choice fragments (err x) = err x
  chunk_of raw choice fragments (ok reason) = ok (some (full_chunk raw choice fragments reason))

  abbrev pub read_choice :
      RawChunk → Choice → Fragments → Result Raised (Option ChatCompletionChunk) × Fragments
  read_choice raw choice fragments =
      let after = accumulate_all (delta_or_empty choice.delta).tool_calls fragments in
      (chunk_of raw choice after (validated choice.finish_reason), after)

  abbrev pub read_choices :
      RawChunk → List Choice → Fragments → Result Raised (Option ChatCompletionChunk) × Fragments
  read_choices raw [] fragments = (ok none, fragments)
  read_choices raw (choice ∷ choices) fragments = read_choice raw choice fragments

  abbrev pub read_payload :
      Option RawChunk → Fragments → Result Raised (Option ChatCompletionChunk) × Fragments
  read_payload none fragments = (ok none, fragments)
  read_payload (some raw) fragments = read_choices raw raw.choices fragments

  -- The payload of a line that carries one.
  unfoldable pub payload_of : String → Option RawChunk
  payload_of line =
      let payload = strip (slice line 5 (len line)) in
      if not (starts_with line "data:")
      then none
      else if not (truthy payload) || str_eq payload "[DONE]"
      then none
      else loads payload

  unfoldable pub parse_sse_line :
      String → Fragments → Result Raised (Option ChatCompletionChunk) × Fragments
  unfolding payload_of accumulate_all assembled_calls
  parse_sse_line line fragments = read_payload (payload_of line) fragments

  abbrev pub yielded : Option ChatCompletionChunk → CompletionStream → CompletionStream
  yielded none rest = rest
  yielded (some chunk) rest = record rest { chunks = chunk ∷ rest.chunks }

  abbrev pub after_line :
      (Fragments → CompletionStream)
      → Result Raised (Option ChatCompletionChunk) × Fragments
      → CompletionStream
  after_line go (err x, fragments) = record { chunks = []; failure = some x }
  after_line go (ok chunk, fragments) = yielded chunk (go fragments)

  -- The loop over `response.aiter_lines()`, with the exception that ends the lines early.
  unfoldable pub read_lines : List String → Option Raised → Fragments → CompletionStream
  unfolding parse_sse_line
  read_lines [] cut fragments = record { chunks = []; failure = cut }
  read_lines (line ∷ lines) cut fragments =
      after_line (read_lines lines cut) (parse_sse_line line fragments)

-- A message of the request: as it is, or the system prompt with its cache breakpoint.
pub data WireMessage : Type 0 where
  as_is : CompletionMessage → WireMessage
  cached_system : String → WireMessage

unfoldable pub apply_system_prompt_caching : List WireMessage → List WireMessage
apply_system_prompt_caching (as_is (plain role content) ∷ rest) =
    if str_eq role "system" then cached_system content ∷ rest else as_is (plain role content) ∷ rest
apply_system_prompt_caching messages = messages

pub record Body : Type 0 where
  pub models : List String
  pub messages : List WireMessage
  pub tools : Option (List Json)

-- What the server answers: the status and the text, or the lines of the stream and the exception
-- that cuts them, if one does.
pub record Response : Type 0 where
  pub status_code : ℕ
  pub text : String
  pub lines : List String
  pub cut : Option Raised

abbrev pub tools_if_any : List Json → Option (List Json)
tools_if_any [] = none
tools_if_any (tool ∷ tools) = some (tool ∷ tools)

abbrev pub sent : List CompletionMessage → List WireMessage
sent [] = []
sent (m ∷ messages) = as_is m ∷ sent messages

-- The headers are part of `post`.
module _ (wire : Wire) (models : List String) (post : Body → Result Raised Response) where
  abbrev pub stream_of : Result Raised Response → CompletionStream
  stream_of (err x) = record { chunks = []; failure = some x }
  stream_of (ok response) =
      if leb 400 response.status_code
      then record {
        chunks = [];
        failure = some (request_failed (some response.status_code) response.text);
      }
      else read_lines wire response.lines response.cut []

  unfoldable pub create_chat_completion : List CompletionMessage → List Json → CompletionStream
  unfolding read_lines apply_system_prompt_caching
  create_chat_completion messages tools = stream_of (
      post (record {
        models = models;
        messages = apply_system_prompt_caching (sent messages);
        tools = tools_if_any tools;
      }))
