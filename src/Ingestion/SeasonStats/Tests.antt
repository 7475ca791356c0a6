-- ===== src/Ingestion/SeasonStats/Tests.antt =====
-- Two appearances of one player in a season, and the theorem of this folder at them.
use fifa_world_cup_ai_agent.Prelude.{ℕ, String, Option, some, [], ◌∷◌}
use fifa_world_cup_ai_agent.Ingestion.SeasonStats.{AppearanceRow, Game, aggregate}
use fifa_world_cup_ai_agent.Ingestion.SeasonStats.Totals.{Totals, aggregate-Totals}

abbrev games : String → Option Game
games id = some (record { season = "2025"; competition_id = "WC" })

abbrev row : ℕ → AppearanceRow
row n = record { player_id = 1; game_id = "g"; column = λ c. n }

aggregate-Totals_example :
    Totals games [] (row 1 ∷ row 2 ∷ []) (aggregate games (row 1 ∷ row 2 ∷ []))
aggregate-Totals_example = aggregate-Totals games (row 1 ∷ row 2 ∷ [])
