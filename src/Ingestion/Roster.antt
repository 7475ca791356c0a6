-- ===== src/Ingestion/Roster.antt =====
-- The teams of the roster among the countries of Transfermarkt:
-- backend/src/domain/ingestion/services/roster_scoping_service.py. The normalization of a name is a
-- parameter. A `NationalTeam` has the fields that the service reads; `fifa_code` may be `None`, which
-- the normalization refuses with a `TypeError`.
pub mod Resolved
mod Tests
use fifa_world_cup_ai_agent.Prelude.{
  ℕ, String, Bool, Option, none, some, List, [], ◌∷◌, Result, ok, err, ◌>>=◌, if◌then◌else◌, str_eq,
  ◌==◌,
}

pub record NationalTeam : Type 0 where
  pub id : ℕ
  pub name : String
  pub fifa_code : Option String

pub record CountryRow : Type 0 where
  pub national_team_id : ℕ
  pub country_name : String

pub data RosterError : Type 0 where
  type_error : RosterError

-- The later of two values, where there is one.
abbrev pub later_or : Option ℕ → Option ℕ → Option ℕ
later_or none earlier = earlier
later_or (some later) earlier = some later

abbrev pub only_if : Bool → ℕ → Option ℕ
only_if b n = if b then some n else none

-- `result[team_id] = national_team_id`
abbrev pub assign : ℕ → ℕ → List (ℕ × ℕ) → List (ℕ × ℕ)
assign k v [] = (k, v) ∷ []
assign k v ((j, w) ∷ entries) =
    let rest = assign k v entries in if j == k then (j, v) ∷ entries else (j, w) ∷ rest

abbrev pub assign_if : ℕ → Option ℕ → List (ℕ × ℕ) → List (ℕ × ℕ)
assign_if k none entries = entries
assign_if k (some v) entries = assign k v entries

module _ (normalize : String → String) where
  -- `by_name.get(key)`: of two rows with one name the later is in the dictionary.
  unfoldable pub by_name : List CountryRow → String → Option ℕ
  by_name [] key = none
  by_name (row ∷ rows) key =
      later_or (by_name rows key)
        (only_if (str_eq (normalize row.country_name) key) row.national_team_id)

  abbrev pub by_code : List CountryRow → Option String → Result RosterError (Option ℕ)
  by_code rows none = err type_error
  by_code rows (some code) = ok (by_name rows (normalize code))

  -- `by_name.get(name) or by_name.get(code)`: the code is looked at only if the name is not found.
  abbrev pub or_by_code : List CountryRow → Option String → Option ℕ → Result RosterError (Option ℕ)
  or_by_code rows code (some found) = ok (some found)
  or_by_code rows code none = by_code rows code

  unfoldable pub real_team : List CountryRow → NationalTeam → Result RosterError (Option ℕ)
  unfolding by_name
  real_team rows team = or_by_code rows team.fifa_code (by_name rows (normalize team.name))

  unfoldable pub resolve_from :
      List CountryRow → List (ℕ × ℕ) → List NationalTeam → Result RosterError (List (ℕ × ℕ))
  unfolding real_team
  resolve_from rows entries [] = ok entries
  resolve_from rows entries (team ∷ teams) = do
    found ← real_team rows team
    resolve_from rows (assign_if team.id found entries) teams

  unfoldable pub resolve_national_teams :
      List NationalTeam → List CountryRow → Result RosterError (List (ℕ × ℕ))
  unfolding resolve_from
  resolve_national_teams teams rows = resolve_from rows [] teams
