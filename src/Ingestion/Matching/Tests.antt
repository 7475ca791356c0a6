-- ===== src/Ingestion/Matching/Tests.antt =====
-- A roster player and three real ones, and the theorems of this folder at them.
use fifa_world_cup_ai_agent.Prelude.{
  ℕ, ◌≤◌, ◌≡◌, refl, Option, none, some, List, [], ◌∷◌, String, arith, ◌*◌,
}
use fifa_world_cup_ai_agent.Ingestion.Matching.{
  Player, RealCandidate, exact_name_dob, candidate, unit, scale_fuzzy_confidence, match_one,
  search_from, exact_match, consider,
}
use fifa_world_cup_ai_agent.Ingestion.Matching.Bounds.{scale_fuzzy_confidence-bounds}
use fifa_world_cup_ai_agent.Ingestion.Matching.Choice.{Answer, match_one-Answer}

abbrev same : String → String
same s = s

abbrev ninety : String → String → ℕ
ninety a b = 90 * unit

abbrev teams : ℕ → Option ℕ
teams t = some t

abbrev roster_player : Player
roster_player = record {
  id = 1;
  team_id = 7;
  name = "Ana Luz";
  date_of_birth = 100;
  height_cm = 170;
}

abbrev real : ℕ → String → ℕ → RealCandidate
real id last_name born = record {
  player_id = id;
  first_name = "Ana";
  last_name = last_name;
  date_of_birth = some born;
  height_in_cm = some 170;
  current_national_team_id = none;
}

abbrev reals : List RealCandidate
reals = real 10 "Luzz" 99 ∷ real 11 "Luze" 100 ∷ real 12 "Luz" 100 ∷ []

exact_found :
    match_one same ninety teams roster_player reals
    ≡ some (candidate roster_player (real 12 "Luz" 100) exact_name_dob 1000)
unfolding match_one search_from exact_match consider
exact_found = refl

match_one-Answer_example :
    Answer same ninety teams roster_player reals (match_one same ninety teams roster_player reals)
match_one-Answer_example = match_one-Answer same ninety teams roster_player reals

scale_fuzzy_confidence-bounds_example :
    (850 ≤ scale_fuzzy_confidence (90 * unit)) × (scale_fuzzy_confidence (90 * unit) ≤ 949)
scale_fuzzy_confidence-bounds_example = scale_fuzzy_confidence-bounds (90 * unit) (omega arith)
