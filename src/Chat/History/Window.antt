-- ===== src/Chat/History/Window.antt =====
-- The window to the token budget: whole newest turns, as many as fit.
use fifa_world_cup_ai_agent.Prelude.{
  ℕ, ◌+◌, ◌≤◌, ◌<◌, inl, inr, ◌≡◌, refl, ap, ◌∙◌, subst, ◌⊎◌, sym, List, [], ◌∷◌, ◌++◌, String,
  arith, reverse, ltb, Bool-cases,
}
use mathlib.Core.List.{reverse-append, reverse-reverse}
use fifa_world_cup_ai_agent.Chat.History.{Exchange, turn_tokens, keep_newest, window_to_budget}

abbrev pub total_tokens : (String → ℕ) → List Exchange → ℕ
total_tokens count_tokens [] = 0
total_tokens count_tokens (t ∷ ts) = turn_tokens count_tokens t + total_tokens count_tokens ts

pub total_tokens-append :
    (count_tokens : String → ℕ) (xs ys : List Exchange)
    → total_tokens count_tokens (xs ++ ys)
      ≡ total_tokens count_tokens xs + total_tokens count_tokens ys
total_tokens-append f [] ys = omega arith
total_tokens-append f (x ∷ xs) ys = omega (arith, total_tokens-append f xs ys)

pub total_tokens-reverse :
    (count_tokens : String → ℕ) (xs : List Exchange)
    → total_tokens count_tokens (reverse xs) ≡ total_tokens count_tokens xs
total_tokens-reverse f [] = refl
total_tokens-reverse f (x ∷ xs) =
    ap (total_tokens f) (reverse-append (x ∷ []) xs)
    ∙ total_tokens-append f (reverse xs) (x ∷ [])
    ∙ omega (arith, total_tokens-reverse f xs)

module _ (count_tokens : String → ℕ) (token_budget : ℕ) where
  -- The first of the turns left out does not fit any more.
  abbrev Overflows : ℕ → List Exchange → Type 0
  Overflows used [] = Unit
  Overflows used (t ∷ ts) = token_budget < used + turn_tokens count_tokens t

  record Kept (used : ℕ) (turns kept : List Exchange) : Type 0 where
    left : List Exchange
    split : turns ≡ kept ++ left
    fits : used ≤ token_budget → used + total_tokens count_tokens kept ≤ token_budget
    full : Overflows (used + total_tokens count_tokens kept) left

  keep_newest-Kept :
      (used : ℕ) (turns : List Exchange)
      → Kept used turns (keep_newest count_tokens token_budget used turns)
  unfolding keep_newest
  keep_newest-Kept used [] = record { left = []; split = refl; fits = λ h. omega arith; full = tt }
  keep_newest-Kept used (t ∷ ts) =
      let next = used + turn_tokens count_tokens t in
      let ih = keep_newest-Kept next ts in
      elim (Bool-cases (ltb token_budget next)) [
        | inl over ↦
            rw over
              (record { left = t ∷ ts; split = refl; fits = λ h. omega arith; full = ground arith })
        | inr under ↦ rw under (record {
          left = ih.left;
          split = ap (λ l. t ∷ l) ih.split;
          fits = λ h. let p : next ≤ token_budget = ground arith in omega (arith, ih.fits p);
          full = subst (λ (n : ℕ). Overflows n ih.left) (omega arith) ih.full;
        })
      ]

  -- A suffix of the turns that fits the budget, and would not with one more.
  pub record IsWindow (turns kept : List Exchange) : Type 0 where
    pub dropped : List Exchange
    pub split : turns ≡ dropped ++ kept
    pub fits : total_tokens count_tokens kept ≤ token_budget
    pub maximal :
        (dropped ≡ [])
        ⊎ ((older : List Exchange) × (oldest : Exchange) × (dropped ≡ older ++ oldest ∷ [])
            × (token_budget < total_tokens count_tokens (oldest ∷ kept)))

  overflow-maximal :
      (n : ℕ) (left kept : List Exchange)
      → n ≡ total_tokens count_tokens kept
      → Overflows n left
      → (reverse left ≡ [])
        ⊎ ((older : List Exchange) × (oldest : Exchange) × (reverse left ≡ older ++ oldest ∷ [])
            × (token_budget < total_tokens count_tokens (oldest ∷ kept)))
  overflow-maximal n [] kept e h = inl refl
  overflow-maximal n (t ∷ ts) kept e h =
      inr (reverse ts, t, reverse-append (t ∷ []) ts, omega arith)

  -- The window keeps the newest turns whole: what it drops is older than all it keeps, what it keeps
  -- fits the budget, and with the next older turn it would not fit.
  pub window_to_budget-IsWindow :
      (turns : List Exchange) → IsWindow turns (window_to_budget count_tokens token_budget turns)
  unfolding window_to_budget
  window_to_budget-IsWindow turns =
      let newest = keep_newest count_tokens token_budget 0 (reverse turns) in
      let k = keep_newest-Kept 0 (reverse turns) in
      record {
        dropped = reverse k.left;
        split = sym (reverse-reverse turns) ∙ ap reverse k.split ∙ reverse-append newest k.left;
        fits = omega (arith, k.fits (omega arith), total_tokens-reverse count_tokens newest);
        maximal =
            overflow-maximal _ k.left (reverse newest)
              (omega (arith, total_tokens-reverse count_tokens newest)) k.full;
      }

  keep_newest_all :
      (used : ℕ) (turns : List Exchange)
      → used + total_tokens count_tokens turns ≤ token_budget
      → keep_newest count_tokens token_budget used turns ≡ turns
  unfolding keep_newest
  keep_newest_all used [] h = refl
  keep_newest_all used (t ∷ ts) h =
      let next = used + turn_tokens count_tokens t in
      ground (arith, keep_newest_all next ts (omega arith))

  -- Turns that fit are all kept.
  pub window_to_budget_all :
      (turns : List Exchange)
      → total_tokens count_tokens turns ≤ token_budget
      → window_to_budget count_tokens token_budget turns ≡ turns
  unfolding window_to_budget
  window_to_budget_all turns h =
      ap reverse
        (keep_newest_all 0 (reverse turns) (omega (arith, total_tokens-reverse count_tokens turns)))
      ∙ reverse-reverse turns
