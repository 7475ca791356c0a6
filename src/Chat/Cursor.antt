-- ===== src/Chat/Cursor.antt =====
-- Stream cursors as texts, backend/src/infra/task_queue/chat_streams.py: the pattern `^\d+-\d+$`,
-- the two numbers of a cursor and their order. A text is its list of characters. What a decimal
-- digit is, and its value, is Python's table for `\d` and `int`: a parameter. `int` refuses a literal
-- of more than 4300 digits, Python's default limit.
pub mod Laws
mod Tests
use fifa_world_cup_ai_agent.Prelude.{
  ℕ, zero, suc, ◌+◌, ◌*◌, Bool, true, false, ◌&&◌, ◌||◌, not, Option, none, some, List, [], ◌∷◌,
  is_some, length, ltb, ◌==◌, if◌then◌else◌,
}

-- b'-', which `split` and the pattern look for.
abbrev pub hyphen : ℕ
hyphen = 45

-- `"0-0"`
abbrev pub stream_cursor_origin : List ℕ
stream_cursor_origin = 48 ∷ 45 ∷ 48 ∷ []

-- `sys.int_info.default_max_str_digits`
abbrev pub digit_limit : ℕ
digit_limit = 4300

-- `cursor.split("-", 1)`; `none` where there is no hyphen, which the unpacking refuses.
abbrev pub split_hyphen : List ℕ → Option (List ℕ × List ℕ)
split_hyphen [] = none
split_hyphen (c ∷ cs) =
    let rest = split_hyphen cs in
    if c == hyphen then some ([], cs) else elim rest [ none ↦ none | some (a, b) ↦ some (c ∷ a, b) ]

abbrev pub both : Option ℕ → Option ℕ → Option (ℕ × ℕ)
both (some a) (some b) = some (a, b)
both _ _ = none

-- `<` of two pairs of numbers.
abbrev pub pair_lt : ℕ × ℕ → ℕ × ℕ → Bool
pair_lt (a, b) (c, d) = ltb a c || (a == c && ltb b d)

abbrev pub compared : Option (ℕ × ℕ) → Option (ℕ × ℕ) → Option Bool
compared (some p) (some q) = some (pair_lt p q)
compared _ _ = none

module _ (digit : ℕ → Option ℕ) where
  -- `\d*` to the end of the text; `\d+` is one digit more.
  abbrev pub all_digits : List ℕ → Bool
  all_digits [] = true
  all_digits (c ∷ cs) = is_some (digit c) && all_digits cs

  abbrev pub some_digits : List ℕ → Bool
  some_digits [] = false
  some_digits (c ∷ cs) = all_digits (c ∷ cs)

  -- The pattern after its first digit: more digits, a hyphen and digits to the end.
  abbrev pub match_rest : List ℕ → Bool
  match_rest [] = false
  match_rest (c ∷ cs) = (is_some (digit c) && match_rest cs) || (c == hyphen && some_digits cs)

  unfoldable pub is_stream_cursor : List ℕ → Bool
  is_stream_cursor [] = false
  is_stream_cursor (c ∷ cs) = is_some (digit c) && match_rest cs

  -- `int(s)` of a text of digits; `none` is its `ValueError`, which a text over the limit has too.
  abbrev pub int_from : ℕ → List ℕ → Option ℕ
  int_from n [] = some n
  int_from n (c ∷ cs) = elim (digit c) [ none ↦ none | some d ↦ int_from (n * 10 + d) cs ]

  abbrev pub int : List ℕ → Option ℕ
  int [] = none
  int (c ∷ cs) = if ltb digit_limit (length (c ∷ cs)) then none else int_from 0 (c ∷ cs)

  -- `_cursor_parts`; `none` is a `ValueError`.
  unfoldable pub cursor_parts : List ℕ → Option (ℕ × ℕ)
  cursor_parts cursor = elim (split_hyphen cursor) [
    | none ↦ none
    | some (a, b) ↦ both (int a) (int b)
  ]

  unfoldable pub stream_cursor_precedes : List ℕ → List ℕ → Option Bool
  stream_cursor_precedes left right = compared (cursor_parts left) (cursor_parts right)
