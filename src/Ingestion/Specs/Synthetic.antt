-- ===== src/Ingestion/Specs/Synthetic.antt =====
-- The tables of the synthetic dataset:
-- backend/src/domain/ingestion/services/synthetic_table_specs.py.
use fifa_world_cup_ai_agent.Prelude.{none, List, [], ◌∷◌}
use fifa_world_cup_ai_agent.Ingestion.Values.{
  Python, Value, parse_int, parse_optional_int, parse_float, parse_optional_float, parse_str,
  parse_optional_str, parse_bool, parse_date, parse_time,
}
use fifa_world_cup_ai_agent.Ingestion.Csv.{TableIngestionSpec}

module _ (python : Python) where
  abbrev pub team_spec : TableIngestionSpec (Value python)
  team_spec = record {
    source_name = "team";
    target_table = "national_team";
    column_spec =
        ("team_id", parse_int python)
        ∷ ("team_name", parse_str python)
        ∷ ("fifa_code", parse_str python)
        ∷ ("group_letter", parse_str python)
        ∷ ("confederation", parse_str python)
        ∷ ("fifa_ranking_pre_tournament", parse_int python)
        ∷ ("elo_rating", parse_int python)
        ∷ ("manager_name", parse_str python)
        ∷ [];
    conflict_columns = "team_id" ∷ [];
    row_transform = none;
  }

  abbrev pub venue_spec : TableIngestionSpec (Value python)
  venue_spec = record {
    source_name = "venue";
    target_table = "venue";
    column_spec =
        ("venue_id", parse_int python)
        ∷ ("stadium_name", parse_str python)
        ∷ ("city", parse_str python)
        ∷ ("country", parse_str python)
        ∷ ("capacity", parse_int python)
        ∷ ("latitude", parse_float python)
        ∷ ("longitude", parse_float python)
        ∷ ("elevation_meters", parse_int python)
        ∷ [];
    conflict_columns = "venue_id" ∷ [];
    row_transform = none;
  }

  abbrev pub tournament_stage_spec : TableIngestionSpec (Value python)
  tournament_stage_spec = record {
    source_name = "tournament_stage";
    target_table = "tournament_stage";
    column_spec =
        ("stage_id", parse_int python)
        ∷ ("stage_name", parse_str python)
        ∷ ("is_knockout", parse_bool python)
        ∷ [];
    conflict_columns = "stage_id" ∷ [];
    row_transform = none;
  }

  abbrev pub referee_spec : TableIngestionSpec (Value python)
  referee_spec = record {
    source_name = "referee";
    target_table = "referee";
    column_spec =
        ("referee_id", parse_int python)
        ∷ ("name", parse_str python)
        ∷ ("country", parse_str python)
        ∷ ("avg_cards_per_game", parse_float python)
        ∷ [];
    conflict_columns = "referee_id" ∷ [];
    row_transform = none;
  }

  abbrev pub player_spec : TableIngestionSpec (Value python)
  player_spec = record {
    source_name = "player";
    target_table = "player";
    column_spec =
        ("player_id", parse_int python)
        ∷ ("team_id", parse_int python)
        ∷ ("player_name", parse_str python)
        ∷ ("position", parse_str python)
        ∷ ("club_team", parse_str python)
        ∷ ("market_value_eur", parse_int python)
        ∷ ("caps", parse_int python)
        ∷ ("date_of_birth", parse_date python)
        ∷ ("height_cm", parse_int python)
        ∷ ("goals", parse_int python)
        ∷ [];
    conflict_columns = "player_id" ∷ [];
    row_transform = none;
  }

  abbrev pub match_spec : TableIngestionSpec (Value python)
  match_spec = record {
    source_name = "match";
    target_table = "match";
    column_spec =
        ("match_id", parse_int python)
        ∷ ("date", parse_date python)
        ∷ ("kickoff_time_utc", parse_time python)
        ∷ ("stage_id", parse_int python)
        ∷ ("venue_id", parse_int python)
        ∷ ("home_team_id", parse_int python)
        ∷ ("away_team_id", parse_int python)
        ∷ ("home_score", parse_int python)
        ∷ ("away_score", parse_int python)
        ∷ ("home_penalty_score", parse_optional_int python)
        ∷ ("away_penalty_score", parse_optional_int python)
        ∷ ("status", parse_str python)
        ∷ ("result_type", parse_str python)
        ∷ ("home_xg", parse_float python)
        ∷ ("away_xg", parse_float python)
        ∷ ("referee_id", parse_int python)
        ∷ ("player_of_the_match_id", parse_int python)
        ∷ [];
    conflict_columns = "match_id" ∷ [];
    row_transform = none;
  }

  abbrev pub match_event_spec : TableIngestionSpec (Value python)
  match_event_spec = record {
    source_name = "match_event";
    target_table = "match_event";
    column_spec =
        ("event_id", parse_int python)
        ∷ ("match_id", parse_int python)
        ∷ ("minute", parse_int python)
        ∷ ("event_type", parse_str python)
        ∷ ("team_id", parse_int python)
        ∷ ("player_id", parse_int python)
        ∷ [];
    conflict_columns = "event_id" ∷ [];
    row_transform = none;
  }

  abbrev pub match_team_stat_spec : TableIngestionSpec (Value python)
  match_team_stat_spec = record {
    source_name = "match_team_stat";
    target_table = "match_team_stat";
    column_spec =
        ("match_id", parse_int python)
        ∷ ("team_id", parse_int python)
        ∷ ("possession_pct", parse_int python)
        ∷ ("total_shots", parse_int python)
        ∷ ("shots_on_target", parse_int python)
        ∷ ("corners", parse_int python)
        ∷ ("fouls", parse_int python)
        ∷ ("offsides", parse_int python)
        ∷ ("saves", parse_int python)
        ∷ ("player_of_the_match", parse_optional_str python)
        ∷ ("data_source", parse_str python)
        ∷ ("last_updated", parse_date python)
        ∷ [];
    conflict_columns = "match_id" ∷ "team_id" ∷ [];
    row_transform = none;
  }

  abbrev pub match_lineup_spec : TableIngestionSpec (Value python)
  match_lineup_spec = record {
    source_name = "match_lineup";
    target_table = "match_lineup";
    column_spec =
        ("lineup_id", parse_int python)
        ∷ ("match_id", parse_int python)
        ∷ ("player_id", parse_int python)
        ∷ ("team_id", parse_int python)
        ∷ ("is_starting_xi", parse_bool python)
        ∷ ("tactical_position", parse_str python)
        ∷ ("minutes_played", parse_int python)
        ∷ [];
    conflict_columns = "lineup_id" ∷ [];
    row_transform = none;
  }

  abbrev pub player_stat_spec : TableIngestionSpec (Value python)
  player_stat_spec = record {
    source_name = "player_stat";
    target_table = "player_stat";
    column_spec =
        ("player_id", parse_int python)
        ∷ ("player_name", parse_str python)
        ∷ ("team_id", parse_int python)
        ∷ ("position", parse_str python)
        ∷ ("matches_played", parse_int python)
        ∷ ("matches_started", parse_int python)
        ∷ ("minutes_played", parse_int python)
        ∷ ("goals", parse_int python)
        ∷ ("assists", parse_int python)
        ∷ ("shots", parse_optional_int python)
        ∷ ("shots_on_target", parse_optional_int python)
        ∷ ("yellow_cards", parse_int python)
        ∷ ("red_cards", parse_int python)
        ∷ ("penalty_goals", parse_int python)
        ∷ ("own_goals", parse_int python)
        ∷ ("clean_sheets", parse_optional_int python)
        ∷ ("saves", parse_optional_int python)
        ∷ ("goals_conceded", parse_optional_int python)
        ∷ ("average_rating", parse_optional_float python)
        ∷ ("data_source", parse_optional_str python)
        ∷ ("last_verified", parse_date python)
        ∷ [];
    conflict_columns = "player_id" ∷ [];
    row_transform = none;
  }

  abbrev pub synthetic_table_specs : List (TableIngestionSpec (Value python))
  synthetic_table_specs =
      team_spec ∷ venue_spec ∷ tournament_stage_spec ∷ referee_spec ∷ player_spec ∷ match_spec
      ∷ match_event_spec ∷ match_team_stat_spec ∷ match_lineup_spec ∷ player_stat_spec ∷ []
