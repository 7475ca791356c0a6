-- ===== src/Ingestion/Scope/Resolves.antt =====
-- Every reference of a scoped row resolves, and the scoped rows are those in scope.
use fifa_world_cup_ai_agent.Prelude.{
  ◌≡◌, String, true, false, ◌⊎◌, Option, none, some, List, All, Result, ok, err, Eq,
}
use fifa_world_cup_ai_agent.Ingestion.Csv.{RawRow, cell}
use fifa_world_cup_ai_agent.Ingestion.Scope.{has_text, int_in}
use fifa_world_cup_ai_agent.Ingestion.Scope.Cells.{BlankOr, IsKnownClub, IsBlanked}
use fifa_world_cup_ai_agent.Ingestion.Scope.Loop.{RowOk}

module _ {Int : Type 0} ⦃e : Eq Int⦄ (int : String → Result String Int) where
  -- A lineup is taken as it is: its player and its club are known, and neither is blank.
  pub record GoodLineup (players : List Int) (known : List String) (row k : RawRow) : Type 0 where
    pub same : k ≡ row
    pub player : int_in int "player_id" players row ≡ ok true
    pub club : (v : String) × (cell "club_id" row ≡ some v) × IsKnownClub known v

  abbrev pub LineupOut : List Int → List String → RawRow → Type 0
  LineupOut players known row =
      (int_in int "player_id" players row ≡ ok false)
      ⊎ ((v : String) × (cell "club_id" row ≡ some v) × (has_text v known ≡ false))

  -- A row that is in scope by a column, some others of which refer to known clubs or are blank.
  pub record GoodRow (column : String) (ids : List Int) (references : List String)
      (known : List String) (row k : RawRow) : Type 0 where
    pub scoped : int_in int column ids row ≡ ok true
    pub clubs : All (λ c. BlankOr (IsKnownClub known) (cell c k)) references
    pub blanked : IsBlanked row k

  abbrev pub RowOut : String → List Int → RawRow → Type 0
  RowOut column ids row = int_in int column ids row ≡ ok false

  -- A cell that `int(row[column])` cannot read: it is missing, or no number.
  abbrev pub IsUnreadable : String → RawRow → Type 0
  IsUnreadable column row =
      (cell column row ≡ none)
      ⊎ ((v : String) × (cell column row ≡ some v) × (problem : String) × (int v ≡ err problem))

  abbrev pub BadLineup : RawRow → Type 0
  BadLineup row = IsUnreadable "player_id" row ⊎ (cell "club_id" row ≡ none)

  module _ (ids : List Int) (known : List String) (row : RawRow) where
    abbrev LineupOk : Option RawRow → Type 0
    LineupOk = RowOk (LineupOut ids known) (GoodLineup ids known) row
