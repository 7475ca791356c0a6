-- ===== src/Ingestion/Specs/Transfermarkt.antt =====
-- The tables of the Transfermarkt data, with the renaming of their columns:
-- backend/src/domain/ingestion/services/transfermarkt_reference_specs.py and
-- backend/src/domain/ingestion/services/transfermarkt_detail_specs.py. The time of a sync is a
-- parameter.
use fifa_world_cup_ai_agent.Prelude.{String, some, List, [], ◌∷◌}
use fifa_world_cup_ai_agent.Ingestion.Values.{
  Python, Value, parse_int, parse_optional_int, parse_optional_float, parse_str, parse_optional_str,
  parse_bool, parse_date, parse_optional_date, parse_hosting,
}
use fifa_world_cup_ai_agent.Ingestion.Csv.{TableIngestionSpec, Row}
use fifa_world_cup_ai_agent.Ingestion.Specs.Rename.{put, rename, rename_one}

abbrev pub real_player_renames : List (String × String)
real_player_renames =
    ("height_in_cm", "height_cm")
    ∷ ("market_value_in_eur", "market_value_eur")
    ∷ ("highest_market_value_in_eur", "highest_market_value_eur")
    ∷ ("url", "profile_url")
    ∷ []

abbrev pub real_player_valuation_renames : List (String × String)
real_player_valuation_renames =
    ("player_id", "real_player_id")
    ∷ ("date", "valuation_date")
    ∷ ("market_value_in_eur", "market_value_eur")
    ∷ []

abbrev pub real_transfer_renames : List (String × String)
real_transfer_renames =
    ("player_id", "real_player_id")
    ∷ ("transfer_fee", "transfer_fee_eur")
    ∷ ("market_value_in_eur", "market_value_at_transfer_eur")
    ∷ []

abbrev pub real_game_lineup_renames : List (String × String)
real_game_lineup_renames =
    ("game_id", "real_game_id")
    ∷ ("player_id", "real_player_id")
    ∷ ("club_id", "real_club_id")
    ∷ ("type", "lineup_type")
    ∷ ("number", "squad_number")
    ∷ ("team_captain", "is_captain")
    ∷ ("date", "lineup_date")
    ∷ []

abbrev pub real_match_event_renames : List (String × String)
real_match_event_renames =
    ("game_id", "real_game_id")
    ∷ ("type", "event_type")
    ∷ ("club_id", "real_club_id")
    ∷ ("player_id", "real_player_id")
    ∷ ("player_assist_id", "assist_player_id")
    ∷ ("date", "event_date")
    ∷ []

abbrev pub real_club_game_renames : List (String × String)
real_club_game_renames =
    ("game_id", "real_game_id")
    ∷ ("club_id", "real_club_id")
    ∷ ("opponent_id", "opponent_club_id")
    ∷ ("hosting", "is_home")
    ∷ []

module _ (python : Python) (now : Value python) where
  -- A row that this table has parsed has the column; the `KeyError` of `pop` on another row is left out.
  abbrev pub rename_total_market_value : Row (Value python) → Row (Value python)
  rename_total_market_value parsed = rename_one "total_market_value" "total_market_value_eur" parsed

  abbrev pub real_player_transform : Row (Value python) → Row (Value python)
  real_player_transform parsed = put "last_synced_at" now (rename real_player_renames parsed)

  abbrev pub real_player_valuation_transform : Row (Value python) → Row (Value python)
  real_player_valuation_transform parsed = rename real_player_valuation_renames parsed

  abbrev pub real_transfer_transform : Row (Value python) → Row (Value python)
  real_transfer_transform parsed = rename real_transfer_renames parsed

  abbrev pub real_game_lineup_transform : Row (Value python) → Row (Value python)
  real_game_lineup_transform parsed = rename real_game_lineup_renames parsed

  abbrev pub real_match_event_transform : Row (Value python) → Row (Value python)
  real_match_event_transform parsed = rename real_match_event_renames parsed

  abbrev pub real_club_game_transform : Row (Value python) → Row (Value python)
  real_club_game_transform parsed = rename real_club_game_renames parsed

  abbrev pub clubs_spec : TableIngestionSpec (Value python)
  clubs_spec = record {
    source_name = "clubs";
    target_table = "real_club";
    column_spec =
        ("club_id", parse_int python)
        ∷ ("club_code", parse_str python)
        ∷ ("name", parse_str python)
        ∷ ("domestic_competition_id", parse_optional_str python)
        ∷ ("total_market_value", parse_optional_int python)
        ∷ ("squad_size", parse_optional_int python)
        ∷ ("average_age", parse_optional_float python)
        ∷ ("stadium_seats", parse_optional_int python)
        ∷ ("stadium_name", parse_optional_str python)
        ∷ ("coach_name", parse_optional_str python)
        ∷ ("url", parse_str python)
        ∷ [];
    conflict_columns = "club_id" ∷ [];
    row_transform = some rename_total_market_value;
  }

  abbrev pub players_spec : TableIngestionSpec (Value python)
  players_spec = record {
    source_name = "players";
    target_table = "real_player";
    column_spec =
        ("player_id", parse_int python)
        ∷ ("first_name", parse_str python)
        ∷ ("last_name", parse_str python)
        ∷ ("country_of_birth", parse_optional_str python)
        ∷ ("country_of_citizenship", parse_optional_str python)
        ∷ ("date_of_birth", parse_optional_date python)
        ∷ ("position", parse_str python)
        ∷ ("sub_position", parse_optional_str python)
        ∷ ("foot", parse_optional_str python)
        ∷ ("height_in_cm", parse_optional_int python)
        ∷ ("current_club_id", parse_optional_int python)
        ∷ ("contract_expiration_date", parse_optional_date python)
        ∷ ("market_value_in_eur", parse_optional_int python)
        ∷ ("highest_market_value_in_eur", parse_optional_int python)
        ∷ ("url", parse_str python)
        ∷ [];
    conflict_columns = "player_id" ∷ [];
    row_transform = some real_player_transform;
  }

  abbrev pub player_valuations_spec : TableIngestionSpec (Value python)
  player_valuations_spec = record {
    source_name = "player_valuations";
    target_table = "real_player_valuation";
    column_spec =
        ("player_id", parse_int python)
        ∷ ("date", parse_date python)
        ∷ ("market_value_in_eur", parse_int python)
        ∷ [];
    conflict_columns = "real_player_id" ∷ "valuation_date" ∷ [];
    row_transform = some real_player_valuation_transform;
  }

  abbrev pub transfers_spec : TableIngestionSpec (Value python)
  transfers_spec = record {
    source_name = "transfers";
    target_table = "real_transfer";
    column_spec =
        ("player_id", parse_int python)
        ∷ ("transfer_date", parse_date python)
        ∷ ("transfer_season", parse_optional_str python)
        ∷ ("from_club_id", parse_optional_int python)
        ∷ ("to_club_id", parse_optional_int python)
        ∷ ("from_club_name", parse_str python)
        ∷ ("to_club_name", parse_str python)
        ∷ ("transfer_fee", parse_optional_float python)
        ∷ ("market_value_in_eur", parse_optional_float python)
        ∷ [];
    conflict_columns = "real_player_id" ∷ "transfer_date" ∷ [];
    row_transform = some real_transfer_transform;
  }

  abbrev pub game_lineups_spec : TableIngestionSpec (Value python)
  game_lineups_spec = record {
    source_name = "game_lineups";
    target_table = "real_game_lineup";
    column_spec =
        ("game_lineups_id", parse_str python)
        ∷ ("game_id", parse_int python)
        ∷ ("player_id", parse_int python)
        ∷ ("club_id", parse_int python)
        ∷ ("type", parse_str python)
        ∷ ("position", parse_optional_str python)
        ∷ ("number", parse_optional_int python)
        ∷ ("team_captain", parse_bool python)
        ∷ ("date", parse_optional_date python)
        ∷ [];
    conflict_columns = "game_lineups_id" ∷ [];
    row_transform = some real_game_lineup_transform;
  }

  abbrev pub game_events_spec : TableIngestionSpec (Value python)
  game_events_spec = record {
    source_name = "game_events";
    target_table = "real_match_event";
    column_spec =
        ("game_event_id", parse_str python)
        ∷ ("game_id", parse_int python)
        ∷ ("minute", parse_optional_int python)
        ∷ ("type", parse_str python)
        ∷ ("club_id", parse_optional_int python)
        ∷ ("player_id", parse_optional_int python)
        ∷ ("description", parse_optional_str python)
        ∷ ("player_in_id", parse_optional_int python)
        ∷ ("player_assist_id", parse_optional_int python)
        ∷ ("date", parse_optional_date python)
        ∷ [];
    conflict_columns = "game_event_id" ∷ [];
    row_transform = some real_match_event_transform;
  }

  abbrev pub club_games_spec : TableIngestionSpec (Value python)
  club_games_spec = record {
    source_name = "club_games";
    target_table = "real_club_game";
    column_spec =
        ("game_id", parse_int python)
        ∷ ("club_id", parse_int python)
        ∷ ("own_goals", parse_optional_int python)
        ∷ ("own_position", parse_optional_str python)
        ∷ ("own_manager_name", parse_optional_str python)
        ∷ ("opponent_id", parse_optional_int python)
        ∷ ("opponent_goals", parse_optional_int python)
        ∷ ("opponent_position", parse_optional_str python)
        ∷ ("opponent_manager_name", parse_optional_str python)
        ∷ ("hosting", parse_hosting python)
        ∷ ("is_win", parse_bool python)
        ∷ [];
    conflict_columns = "real_game_id" ∷ "real_club_id" ∷ [];
    row_transform = some real_club_game_transform;
  }

  abbrev pub transfermarkt_specs : List (TableIngestionSpec (Value python))
  transfermarkt_specs =
      clubs_spec ∷ players_spec ∷ player_valuations_spec ∷ transfers_spec ∷ game_lineups_spec
      ∷ game_events_spec ∷ club_games_spec ∷ []
