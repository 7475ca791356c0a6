-- ===== src/Ingestion/Specs/Rename.antt =====
-- The renaming of columns: `_rename` of
-- backend/src/domain/ingestion/services/transfermarkt_detail_specs.py, and what it does to the names
-- of a row.
use fifa_world_cup_ai_agent.Prelude.{
  String, Option, none, some, List, [], ◌∷◌, str_eq, if◌then◌else◌,
}
use fifa_world_cup_ai_agent.Ingestion.Csv.{Row, cell}

module _ {V : Type 0} where
  -- `result[name] = value`
  abbrev pub put : String → V → Row V → Row V
  put name value [] = (name, value) ∷ []
  put name value ((n, v) ∷ row) =
      let rest = put name value row in if str_eq n name then (n, value) ∷ row else (n, v) ∷ rest

  -- What is left after `result.pop(name)`.
  abbrev pub drop : String → Row V → Row V
  drop name [] = []
  drop name ((n, v) ∷ row) =
      let rest = drop name row in if str_eq n name then row else (n, v) ∷ rest

  abbrev pub moved : String → String → Row V → Option V → Row V
  moved source target row none = row
  moved source target row (some v) = put target v (drop source row)

  -- One turn of the loop: a column that is there gets its new name.
  abbrev pub rename_one : String → String → Row V → Row V
  rename_one source target row = moved source target row (cell source row)

  abbrev pub rename : List (String × String) → Row V → Row V
  rename [] row = row
  rename ((source, target) ∷ renames) row = rename renames (rename_one source target row)
