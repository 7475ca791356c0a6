-- ===== src/Chat/History.antt =====
-- The prompt history of a conversation: backend/src/domain/chat/model/message.py and
-- backend/src/domain/chat/services/chat_history_rebuild_service.py. The token counter is a
-- parameter. `Message.created_at` is not modelled: the history is text only.
pub mod Pairs
pub mod Window
pub mod Stability
mod Tests
use fifa_world_cup_ai_agent.Prelude.{
  ℕ, ◌+◌, String, Bool, true, false, ◌&&◌, Option, none, List, [], ◌∷◌, ◌++◌, reverse, Result, ok,
  err, ltb, ◌==◌, if◌then◌else◌,
}

pub data MessageRole : Type 0 where
  system user assistant tool : MessageRole

abbrev pub is_user : MessageRole → Bool
is_user user = true
is_user _ = false

abbrev pub is_assistant : MessageRole → Bool
is_assistant assistant = true
is_assistant _ = false

pub record Message : Type 0 where
  pub role : MessageRole
  pub content : String
  pub tool_call_id : Option String
  pub name : Option String

-- `Message(role=role, content=content)`
abbrev pub message : MessageRole → String → Message
message role content = record { role = role; content = content; tool_call_id = none; name = none }

abbrev pub Exchange : Type 0
Exchange = Message × Message

-- `zip(rows, rows[1:])`
abbrev pub neighbours : List Message → List Exchange
neighbours [] = []
neighbours (x ∷ []) = []
neighbours (x ∷ y ∷ rows) = (x, y) ∷ neighbours (y ∷ rows)

abbrev pub is_turn : Exchange → Bool
is_turn (user_row, reply_row) = is_user user_row.role && is_assistant reply_row.role

-- The loop of `_pair_complete_turns` over the neighbours.
abbrev pub select_turns : List Exchange → List Exchange
select_turns [] = []
select_turns (pair ∷ pairs) =
    let rest = select_turns pairs in if is_turn pair then pair ∷ rest else rest

unfoldable pub pair_complete_turns : List Message → List Exchange
pair_complete_turns rows = select_turns (neighbours rows)

-- `[Message(role, content) for turn in kept_turns for message in turn]`
unfoldable pub flatten_turns : List Exchange → List Message
flatten_turns [] = []
flatten_turns ((u, a) ∷ turns) =
    message u.role u.content ∷ message a.role a.content ∷ flatten_turns turns

-- `sum(count_tokens(m.content) for m in turn)`
abbrev pub turn_tokens : (String → ℕ) → Exchange → ℕ
turn_tokens count_tokens (u, a) = count_tokens u.content + count_tokens a.content

module _ (count_tokens : String → ℕ) (token_budget : ℕ) where
  -- The loop of `_window_to_budget` over the reversed turns, with its `break`.
  unfoldable pub keep_newest : ℕ → List Exchange → List Exchange
  keep_newest used [] = []
  keep_newest used (turn ∷ turns) =
      let rest = keep_newest (used + turn_tokens count_tokens turn) turns in
      if ltb token_budget (used + turn_tokens count_tokens turn) then [] else turn ∷ rest

  unfoldable pub window_to_budget : List Exchange → List Exchange
  unfolding keep_newest
  window_to_budget turns = reverse (keep_newest 0 (reverse turns))

  -- `rebuild`, on the rows of `list_prompt_turns`.
  unfoldable pub rebuild : List Message → List Message
  unfolding pair_complete_turns window_to_budget flatten_turns
  rebuild rows = flatten_turns (window_to_budget (pair_complete_turns rows))
