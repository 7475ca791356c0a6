-- ===== src/Chat/History/Pairs.antt =====
-- The pairing of rows to turns: what is a turn, and what appended rows change.
use fifa_world_cup_ai_agent.Prelude.{◌≡◌, refl, true, false, List, [], ◌∷◌, ◌++◌, arith, All}
use fifa_world_cup_ai_agent.Chat.History.{
  Message, message, Exchange, is_turn, is_assistant, pair_complete_turns, flatten_turns,
}

-- A row that is no assistant's adds no turn at the end.
pub pair_complete_turns-snoc :
    (rows : List Message) (m : Message)
    → is_assistant m.role ≡ false
    → pair_complete_turns (rows ++ m ∷ []) ≡ pair_complete_turns rows
unfolding pair_complete_turns
pair_complete_turns-snoc [] m h = refl
pair_complete_turns-snoc (x ∷ []) m h = ground arith
pair_complete_turns-snoc (x ∷ y ∷ rows) m h =
    ground (arith, pair_complete_turns-snoc (y ∷ rows) m h)

-- A user row and an assistant row at the end add the turn that they are.
pub pair_complete_turns-snoc_turn :
    (rows : List Message) (u a : Message)
    → is_turn (u, a) ≡ true
    → pair_complete_turns (rows ++ u ∷ a ∷ []) ≡ pair_complete_turns rows ++ (u, a) ∷ []
unfolding pair_complete_turns
pair_complete_turns-snoc_turn [] u a h = ground arith
pair_complete_turns-snoc_turn (x ∷ []) u a h = ground arith
pair_complete_turns-snoc_turn (x ∷ y ∷ rows) u a h =
    ground (arith, pair_complete_turns-snoc_turn (y ∷ rows) u a h)

-- Every turn is a user's row and an assistant's.
pub pair_complete_turns-turns :
    (rows : List Message) → All (λ t. is_turn t ≡ true) (pair_complete_turns rows)
unfolding pair_complete_turns
pair_complete_turns-turns [] = tt
pair_complete_turns-turns (x ∷ []) = tt
pair_complete_turns-turns (x ∷ y ∷ rows) = ground (arith, pair_complete_turns-turns (y ∷ rows))

-- The text of a turn, as a message rebuilt from it has it.
abbrev pub text_only : Message → Message
text_only m = message m.role m.content

abbrev pub text_turns : List Exchange → List Exchange
text_turns [] = []
text_turns ((u, a) ∷ turns) = (text_only u, text_only a) ∷ text_turns turns

-- Pairing the messages of turns gives the turns back.
pub pair-flatten :
    (turns : List Exchange)
    → All (λ t. is_turn t ≡ true) turns
    → pair_complete_turns (flatten_turns turns) ≡ text_turns turns
unfolding pair_complete_turns flatten_turns
pair-flatten [] h = refl
pair-flatten ((u, a) ∷ []) h = ground arith
pair-flatten ((u, a) ∷ (v, b) ∷ turns) h = ground (arith, pair-flatten ((v, b) ∷ turns) h.1)
