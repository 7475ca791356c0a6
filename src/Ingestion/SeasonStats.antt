-- ===== src/Ingestion/SeasonStats.antt =====
-- The statistics of a season from the appearances:
-- backend/src/domain/ingestion/services/season_stat_aggregation_service.py.
pub mod Totals
mod Tests
use fifa_world_cup_ai_agent.Prelude.{
  ℕ, suc, ◌+◌, String, Bool, ◌&&◌, Option, none, some, List, [], ◌∷◌, Result, ok, err, ◌>>=◌,
  if◌then◌else◌, str_eq, ◌==◌,
}

-- The columns of `_SUM_COLUMNS`.
pub data Column : Type 0 where
  goals assists yellow_cards red_cards minutes_played : Column

pub record AppearanceRow : Type 0 where
  pub player_id : ℕ
  pub game_id : String
  pub column : Column → ℕ

pub record Game : Type 0 where
  pub season : String
  pub competition_id : String

pub record Key : Type 0 where
  pub player_id : ℕ
  pub season : String
  pub competition_id : String

pub record Group : Type 0 where
  pub key : Key
  pub appearances : ℕ
  pub column : Column → ℕ

pub data UnknownGame : Type 0 where
  unknown_game : String → UnknownGame

abbrev pub key_eq : Key → Key → Bool
key_eq a b =
    a.player_id == b.player_id
    && str_eq a.season b.season
    && str_eq a.competition_id b.competition_id

abbrev pub key_of : AppearanceRow → Game → Key
key_of row game = record {
  player_id = row.player_id;
  season = game.season;
  competition_id = game.competition_id;
}

abbrev pub fresh_group : Key → Group
fresh_group key = record { key = key; appearances = 0; column = λ c. 0 }

abbrev pub count_row : AppearanceRow → Group → Group
count_row row g = record g {
  appearances = g.appearances + 1;
  column = λ c. g.column c + row.column c;
}

-- The group of the key, made if it is missing, counts the row.
unfoldable pub add_row : Key → AppearanceRow → List Group → List Group
add_row key row [] = count_row row (fresh_group key) ∷ []
add_row key row (g ∷ gs) =
    let rest = add_row key row gs in if key_eq g.key key then count_row row g ∷ gs else g ∷ rest

abbrev pub known_game : String → Option Game → Result UnknownGame Game
known_game id none = err (unknown_game id)
known_game id (some game) = ok game

unfoldable pub aggregate_from :
    (String → Option Game) → List Group → List AppearanceRow → Result UnknownGame (List Group)
unfolding add_row
aggregate_from games_by_id groups [] = ok groups
aggregate_from games_by_id groups (row ∷ rows) =
    known_game row.game_id (games_by_id row.game_id)
    >>= (λ game. aggregate_from games_by_id (add_row (key_of row game) row groups) rows)

unfoldable pub aggregate :
    (String → Option Game) → List AppearanceRow → Result UnknownGame (List Group)
unfolding aggregate_from
aggregate games_by_id rows = aggregate_from games_by_id [] rows
