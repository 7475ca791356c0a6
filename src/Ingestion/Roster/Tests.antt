-- ===== src/Ingestion/Roster/Tests.antt =====
-- Two countries and two teams, one of which has a name that is not found.
use fifa_world_cup_ai_agent.Prelude.{◌≡◌, refl, String, none, some, List, [], ◌∷◌, err}
use fifa_world_cup_ai_agent.Ingestion.Roster.{
  NationalTeam, CountryRow, type_error, resolve_national_teams,
}
use fifa_world_cup_ai_agent.Ingestion.Roster.Resolved.{
  Resolution, resolve_national_teams-Resolution,
}

abbrev as_it_is : String → String
as_it_is s = s

abbrev countries : List CountryRow
countries =
    record { national_team_id = 11; country_name = "Uruguay" }
    ∷ record { national_team_id = 12; country_name = "KOR" }
    ∷ []

abbrev teams : List NationalTeam
teams =
    record { id = 1; name = "Uruguay"; fifa_code = none }
    ∷ record { id = 2; name = "Korea Republic"; fifa_code = some "KOR" }
    ∷ []

resolve_national_teams-Resolution_example :
    Resolution as_it_is countries teams [] (resolve_national_teams as_it_is teams countries)
resolve_national_teams-Resolution_example =
    resolve_national_teams-Resolution as_it_is countries teams

-- A team that an earlier sync created, with no code, and whose country the data no longer has.
gone : resolve_national_teams as_it_is teams [] ≡ err type_error
unfolding resolve_national_teams
gone = refl
