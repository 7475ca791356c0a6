-- ===== src/Ingestion/Scope/Tests.antt =====
-- Rows of one digit numbers, and the theorem of this folder at them.
use fifa_world_cup_ai_agent.Prelude.{
  ℕ, String, List, [], ◌∷◌, Result, ok, err, if◌then◌else◌, str_eq, nat_eq,
}
use fifa_world_cup_ai_agent.Ingestion.Csv.{RawRow}

abbrev digit : String → Result String ℕ
digit s = if str_eq s "1" then ok 1 else if str_eq s "2" then ok 2 else err "not a digit"

abbrev event : String → String → String → RawRow
event player club assist =
    ("player_id", player) ∷ ("club_id", club) ∷ ("player_assist_id", assist) ∷ ("minute", "9") ∷ []

abbrev rows : List RawRow
rows = event "1" "2" "2" ∷ event "2" "1" "" ∷ event "2" "2" "1" ∷ []
