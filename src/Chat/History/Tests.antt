-- ===== src/Chat/History/Tests.antt =====
-- A conversation with a failed turn, a finished one and the message that is being answered; a token
-- is a turn's message here.
use fifa_world_cup_ai_agent.Prelude.{ℕ, ◌≡◌, refl, List, [], ◌∷◌, ◌++◌, String, arith}
use fifa_world_cup_ai_agent.Chat.History.{
  Message, user, assistant, message, pair_complete_turns, window_to_budget, rebuild,
}
use fifa_world_cup_ai_agent.Chat.History.Pairs.{text_only}
use fifa_world_cup_ai_agent.Chat.History.Window.{IsWindow, window_to_budget-IsWindow}
use fifa_world_cup_ai_agent.Chat.History.Stability.{rebuild-snoc, rebuild-append_turn, rebuild_idem}

abbrev one_token : String → ℕ
one_token s = 1

abbrev rows : List Message
rows =
    message user "lost"
    ∷ message user "q1"
    ∷ message assistant "a1"
    ∷ message user "q2"
    ∷ message assistant "a2"
    ∷ []

rebuild-rows : rebuild one_token 3 rows ≡ message user "q2" ∷ message assistant "a2" ∷ []
unfolding rebuild
rebuild-rows = refl

window_to_budget-IsWindow_example :
    IsWindow one_token 3
      (pair_complete_turns rows)
      (window_to_budget one_token 3 (pair_complete_turns rows))
window_to_budget-IsWindow_example = window_to_budget-IsWindow one_token 3 (pair_complete_turns rows)

rebuild-snoc_example :
    rebuild one_token 3 (rows ++ message user "q3" ∷ []) ≡ rebuild one_token 3 rows
rebuild-snoc_example = rebuild-snoc one_token 3 rows (message user "q3") refl

rebuild-append_turn_example :
    rebuild one_token 6 (rows ++ message user "q3" ∷ message assistant "a3" ∷ [])
    ≡ rebuild one_token 6 rows
      ++ text_only (message user "q3") ∷ text_only (message assistant "a3") ∷ []
unfolding pair_complete_turns
rebuild-append_turn_example =
    rebuild-append_turn one_token 6 rows (message user "q3") (message assistant "a3") refl
      (omega arith)

rebuild_idem_example : rebuild one_token 3 (rebuild one_token 3 rows) ≡ rebuild one_token 3 rows
rebuild_idem_example = rebuild_idem one_token 3 rows
