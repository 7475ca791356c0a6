-- ===== src/Chat/Service/Start/Tests.antt =====
-- Two users who write to one conversation, and the theorem of this folder at their calls.
use fifa_world_cup_ai_agent.Prelude.{ℕ, refl, String, none, some, List, [], ◌∷◌}
use fifa_world_cup_ai_agent.Chat.Completion.{other_error}
use fifa_world_cup_ai_agent.Chat.Service.Start.{Store, Calls}
use fifa_world_cup_ai_agent.Chat.Service.Start.Owner.{
  Call, start, persist, perform_all, IsStep, perform_all-IsStep,
}

abbrev as_it_is : String → String
as_it_is s = s

abbrev number_text : ℕ → String
number_text n = "n"

abbrev calm : Calls
calm = record {
  get = none;
  flush = none;
  touch = none;
  commit = none;
  enqueue = none;
  xadd = none;
  now = 9;
}

abbrev empty : Store
empty = record { conversation = none; messages = []; jobs = []; announced = [] }

abbrev calls : List Call
calls =
    start (record calm { commit = some (other_error "OperationalError" "gone") }) 1 "Hi"
    ∷ start calm 1 "Hi"
    ∷ persist calm 1 "Hi" none
    ∷ start calm 2 "Mine"
    ∷ start calm 1 "Again"
    ∷ []

perform_all-IsStep_example : IsStep empty (perform_all as_it_is number_text number_text calls empty)
perform_all-IsStep_example = perform_all-IsStep as_it_is number_text number_text calls empty refl
