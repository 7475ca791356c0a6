-- ===== src/Chat/Service/Tests.antt =====
-- A turn that is answered at once, and the theorems of this folder at it.
use fifa_world_cup_ai_agent.Prelude.{
  ℕ, ◌≡◌, refl, String, none, some, List, [], ◌∷◌, ok, inl, arith,
}
use fifa_world_cup_ai_agent.Json.{Json}
use fifa_world_cup_ai_agent.Chat.Completion.{FinishReason, CompletionStream, other_error}
use fifa_world_cup_ai_agent.Chat.History.{message, MessageRole, rebuild}
use fifa_world_cup_ai_agent.Chat.ToolLoop.{CompletionMessage, ToolDefinition, run, finalize, absorb}
use fifa_world_cup_ai_agent.Chat.Service.Parts.{Texts, Lookups, build_match_directive}
use fifa_world_cup_ai_agent.Chat.Service.{
  Row, World, Outcomes, Ran, load_prompt_history, send_message,
}
use fifa_world_cup_ai_agent.Chat.Service.Cache.{history_of, send_message-IsCoherent}

abbrev client : List CompletionMessage → List Json → CompletionStream
client messages tools = record {
  chunks =
      record {
        delta_content = some "Uruguay won.";
        delta_reasoning = none;
        tool_calls = none;
        finish_reason = some FinishReason.stop;
        model = some "m";
        cached_tokens = none;
        cache_write_tokens = none;
      }
      ∷ [];
  failure = none;
}

abbrev no_tools : List (String × ToolDefinition String)
no_tools = []

abbrev texts : Texts
texts = record { strip = λ s. s; request_failed_text = λ status detail. detail }

abbrev lookups : Lookups
lookups = record { match_repo = λ id. ok none; national_team_repo = λ id. ok none }

abbrev one_each : String → ℕ
one_each s = 1

abbrev row : MessageRole → String → Row
row role content = record { message = message role content; widgets = [] }

abbrev world : World ℕ
world = record {
  rows =
      row MessageRole.user "Hi"
      ∷ row MessageRole.assistant "Hello."
      ∷ row MessageRole.user "Who won?"
      ∷ [];
  updated_at = some 1;
  cached = [];
  touched = [];
}

abbrev calm : Outcomes ℕ
calm = record {
  get_history = none;
  list_prompt_turns = none;
  save_rebuilt = none;
  append_message = none;
  touch = none;
  commit = none;
  xadd = none;
  save_history = none;
  now = 2;
}

abbrev outage : Outcomes ℕ
outage = record calm { commit = some (other_error "OperationalError" "connection lost") }

abbrev turn : Outcomes ℕ → Ran ℕ
turn o = send_message one_each 100 texts lookups no_tools client [] "c" o "Who won?" none world

-- The commit raises, and the touch that it rolls back is announced all the same.
uncommitted_touch : (turn outage).world.touched ≡ 2 ∷ []
unfolding send_message build_match_directive run finalize absorb rebuild
uncommitted_touch = refl

send_message-IsCoherent_example :
    ((load_prompt_history one_each 100 calm world).0 ≡ ok (history_of one_each 100 world))
    × ((turn calm).world.cached ≡ history_of one_each 100 (turn calm).world)
unfolding send_message build_match_directive run finalize absorb rebuild
send_message-IsCoherent_example =
    send_message-IsCoherent one_each 100 texts lookups no_tools client [] "c" calm world
      (record {
        get_history = refl;
        list_prompt_turns = refl;
        append_message = refl;
        touch = refl;
        commit = refl;
        save_history = refl;
      })
      (message MessageRole.user "Hi" ∷ message MessageRole.assistant "Hello." ∷ []) "Who won?" none
      refl (inl refl) refl (omega arith)
