-- ===== src/Chat/History/Stability.antt =====
-- The rebuilt prompt prefix is stable: what later rows and a second rebuild do to it.
use fifa_world_cup_ai_agent.Prelude.{
  ℕ, ◌+◌, ◌≤◌, ◌≡◌, refl, ap, ◌∙◌, sym, subst, true, false, List, [], ◌∷◌, ◌++◌, String, arith, All,
}
use fifa_world_cup_ai_agent.Chat.History.{
  Message, Exchange, message, is_assistant, is_turn, turn_tokens, pair_complete_turns,
  window_to_budget, flatten_turns, rebuild,
}
use fifa_world_cup_ai_agent.Chat.History.Pairs.{
  text_only, text_turns, pair-flatten, pair_complete_turns-snoc, pair_complete_turns-snoc_turn,
  pair_complete_turns-turns,
}
use fifa_world_cup_ai_agent.Chat.History.Window.{
  total_tokens, total_tokens-append, window_to_budget-IsWindow, window_to_budget_all,
}

flatten-append :
    (xs ys : List Exchange) → flatten_turns (xs ++ ys) ≡ flatten_turns xs ++ flatten_turns ys
unfolding flatten_turns
flatten-append [] ys = refl
flatten-append ((u, a) ∷ xs) ys =
    ap (λ l. message u.role u.content ∷ message a.role a.content ∷ l) (flatten-append xs ys)

flatten-text_turns : (ts : List Exchange) → flatten_turns (text_turns ts) ≡ flatten_turns ts
unfolding flatten_turns
flatten-text_turns [] = refl
flatten-text_turns ((u, a) ∷ ts) =
    ap (λ l. message u.role u.content ∷ message a.role a.content ∷ l) (flatten-text_turns ts)

All-suffix : (P : Exchange → Type 0) (xs ys : List Exchange) → All P (xs ++ ys) → All P ys
All-suffix P [] ys h = h
All-suffix P (x ∷ xs) ys h = All-suffix P xs ys h.1

module _ (count_tokens : String → ℕ) (token_budget : ℕ) where
  total-text_turns :
      (ts : List Exchange)
      → total_tokens count_tokens (text_turns ts) ≡ total_tokens count_tokens ts
  total-text_turns [] = refl
  total-text_turns ((u, a) ∷ ts) = omega (arith, total-text_turns ts)

  -- The row of the message that is being answered, last and with no reply, is not in the history,
  -- nor is any last row that is no assistant's.
  pub rebuild-snoc :
      (rows : List Message) (m : Message)
      → is_assistant m.role ≡ false
      → rebuild count_tokens token_budget (rows ++ m ∷ []) ≡ rebuild count_tokens token_budget rows
  unfolding rebuild
  rebuild-snoc rows m h =
      ap (λ ts. flatten_turns (window_to_budget count_tokens token_budget ts))
        (pair_complete_turns-snoc rows m h)

  -- While the turns fit the budget, a new turn only adds its two messages at the end: the prefix
  -- before them does not change.
  pub rebuild-append_turn :
      (rows : List Message) (u a : Message)
      → is_turn (u, a) ≡ true
      → total_tokens count_tokens (pair_complete_turns rows) + turn_tokens count_tokens (u, a)
        ≤ token_budget
      → rebuild count_tokens token_budget (rows ++ u ∷ a ∷ [])
        ≡ rebuild count_tokens token_budget rows ++ text_only u ∷ text_only a ∷ []
  unfolding rebuild
  rebuild-append_turn rows u a t h =
      let turns = pair_complete_turns rows in
      ap (λ ts. flatten_turns (window_to_budget count_tokens token_budget ts))
        (pair_complete_turns-snoc_turn rows u a t)
      ∙ ap flatten_turns (
          window_to_budget_all count_tokens token_budget (turns ++ (u, a) ∷ [])
            (omega (arith, total_tokens-append count_tokens turns ((u, a) ∷ []))))
      ∙ flatten-append turns ((u, a) ∷ [])
      ∙ sym (
          ap (λ ts. flatten_turns ts ++ text_only u ∷ text_only a ∷ [])
            (window_to_budget_all count_tokens token_budget turns (omega arith)))

  -- Rebuilding the rebuilt history changes nothing.
  pub rebuild_idem :
      (rows : List Message)
      → rebuild count_tokens token_budget (rebuild count_tokens token_budget rows)
        ≡ rebuild count_tokens token_budget rows
  unfolding rebuild
  rebuild_idem rows =
      let turns = pair_complete_turns rows in
      let kept = window_to_budget count_tokens token_budget turns in
      let w = window_to_budget-IsWindow count_tokens token_budget turns in
      let turns_kept : All (λ t. is_turn t ≡ true) kept =
        All-suffix _ w.dropped kept
          (subst (All (λ t. is_turn t ≡ true)) w.split (pair_complete_turns-turns rows)) in
      ap (λ ts. flatten_turns (window_to_budget count_tokens token_budget ts))
        (pair-flatten kept turns_kept)
      ∙ ap flatten_turns (
          window_to_budget_all count_tokens token_budget (text_turns kept)
            (omega (arith, total-text_turns kept, w.fits)))
      ∙ flatten-text_turns kept
