-- ===== src/Chat/Cursor/Tests.antt =====
-- Cursors in ASCII digits.
use fifa_world_cup_ai_agent.Prelude.{
  ℕ, ◌-◌, ◌≡◌, refl, ◌++◌, ◌⊎◌, ◌≤◌, ◌<◌, length, true, false, Option, none, some, List, [], ◌∷◌,
  leb, ◌&&◌, if◌then◌else◌,
}
use fifa_world_cup_ai_agent.Chat.Cursor.{hyphen, is_stream_cursor, cursor_parts}
use fifa_world_cup_ai_agent.Chat.Cursor.Laws.{cursor_parts-total}

abbrev ascii_digit : ℕ → Option ℕ
ascii_digit c = if leb 48 c && leb c 57 then some (c - 48) else none

-- "17-2"
abbrev cursor : List ℕ
cursor = 49 ∷ 55 ∷ 45 ∷ 50 ∷ []

cursor-matches : is_stream_cursor ascii_digit cursor ≡ true
unfolding is_stream_cursor
cursor-matches = refl

-- "17-" and "1-7-2"
others_do_not :
    (is_stream_cursor ascii_digit (49 ∷ 55 ∷ 45 ∷ []) ≡ false)
    × (is_stream_cursor ascii_digit (49 ∷ 45 ∷ 55 ∷ 45 ∷ 50 ∷ []) ≡ false)
unfolding is_stream_cursor
others_do_not = (refl, refl)

cursor_parts-total_example :
    (a : List ℕ) × (b : List ℕ) × (cursor ≡ a ++ hyphen ∷ b)
    × (((length a ≤ 4300)
          × (length b ≤ 4300)
          × (parts : ℕ × ℕ) × (cursor_parts ascii_digit cursor ≡ some parts))
        ⊎ (((4300 < length a) ⊎ (4300 < length b)) × (cursor_parts ascii_digit cursor ≡ none)))
cursor_parts-total_example = cursor_parts-total ascii_digit cursor refl cursor-matches
