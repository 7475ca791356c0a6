-- ===== src/Chat/Service/Rows.antt =====
-- The rows of the conversation through the parts of a turn.
use fifa_world_cup_ai_agent.Prelude.{
  ◌≡◌, refl, String, Option, none, some, List, [], ◌∷◌, ◌++◌, Result, ok, err, ℕ,
}
use fifa_world_cup_ai_agent.Json.{Fields}
use fifa_world_cup_ai_agent.Chat.Completion.{Raised}
use fifa_world_cup_ai_agent.Chat.History.{Message, MessageRole, message, rebuild}
use fifa_world_cup_ai_agent.Chat.Service.{
  Row, World, Outcomes, prompt_rows, raise_or, save, cache_rebuilt, rebuilt, from_cache,
  load_prompt_history, committed, touched_then, appended_then, publish_conversation_touched,
}

-- The rows that a turn leaves: one more, or, after an exception that was caught, the same.
abbrev pub rows_after : Option Raised → Row → List Row → List Row
rows_after none row rows = rows ++ row ∷ []
rows_after (some x) row rows = rows

abbrev pub reply_row : String → List (String × String × Fields) → Row
reply_row content widgets = record {
  message = message MessageRole.assistant content;
  widgets = widgets;
}

module _ {Time : Type 0} where
  committed-rows :
      (x : Option Raised) (now : Time) (row : Row) (new old : World Time)
      → new.rows ≡ old.rows ++ row ∷ []
      → (committed x now new old).2.rows ≡ rows_after (committed x now new old).0 row old.rows
  committed-rows none now row new old h = h
  committed-rows (some x) now row new old h = refl

  touched-rows :
      (x : Option Raised) (o : Outcomes Time) (row : Row) (new old : World Time)
      → new.rows ≡ old.rows ++ row ∷ []
      → (touched_then x o new old).2.rows ≡ rows_after (touched_then x o new old).0 row old.rows
  touched-rows none o row new old h = committed-rows o.commit o.now row _ old h
  touched-rows (some x) o row new old h = refl

  pub appended-rows :
      (x : Option Raised) (o : Outcomes Time) (row : Row) (new old : World Time)
      → new.rows ≡ old.rows ++ row ∷ []
      → (appended_then x o new old).2.rows ≡ rows_after (appended_then x o new old).0 row old.rows
  appended-rows none o row new old h = touched-rows o.touch o row new old h
  appended-rows (some x) o row new old h = refl

  pub save_rows :
      (failed : Option Raised) (history : List Message) (w : World Time)
      → (save failed history w).rows ≡ w.rows
  save_rows none history w = refl
  save_rows (some x) history w = refl

  pub publish_rows :
      (failed : Option Raised) (at : Option Time) (w : World Time)
      → (publish_conversation_touched failed at w).rows ≡ w.rows
  unfolding publish_conversation_touched
  publish_rows failed none w = refl
  publish_rows none (some at) w = refl
  publish_rows (some x) (some at) w = refl

  pub load-rows :
      (count_tokens : String → ℕ) (token_budget : ℕ) (o : Outcomes Time) (w : World Time)
      → (load_prompt_history count_tokens token_budget o w).1.rows ≡ w.rows
  unfolding load_prompt_history
  load-rows count_tokens token_budget o w =
      go (raise_or o.get_history w.cached)
        (raise_or o.list_prompt_turns (rebuild count_tokens token_budget (prompt_rows w.rows)))
    where
      cached_rows :
          (history : List Message) → (cache_rebuilt o.save_rebuilt history w).rows ≡ w.rows
      cached_rows [] = refl
      cached_rows (m ∷ history) = save_rows o.save_rebuilt (m ∷ history) w

      rebuilt_rows :
          (r : Result Raised (List Message))
          → (rebuilt count_tokens token_budget o r w).1.rows ≡ w.rows
      rebuilt_rows (err x) = refl
      rebuilt_rows (ok history) = cached_rows history

      go :
          (r s : Result Raised (List Message))
          → (from_cache count_tokens token_budget o r w).1.rows ≡ w.rows
      go (err x) s = refl
      go (ok (m ∷ history)) s = refl
      go (ok []) s =
          rebuilt_rows
            (raise_or o.list_prompt_turns (rebuild count_tokens token_budget (prompt_rows w.rows)))
