-- ===== src/Ingestion/Scope.antt =====
-- The scoping of the rows of a Transfermarkt sync, and the references that are blanked in them:
-- `_sanitize_club_reference`, `_sanitize_player_reference` and the filters of
-- `sync_player_scoped_tables` and `sync_match_data` in
-- backend/src/domain/ingestion/services/transfermarkt_detail_sync.py. Python's `int` and its numbers
-- are parameters, and a set is a list.
mod Cells
pub mod Loop
pub mod Events
pub mod Resolves
mod Tests
use fifa_world_cup_ai_agent.Prelude.{
  String, Bool, true, false, ◌&&◌, ◌||◌, not, Option, none, some, List, [], ◌∷◌, Result, ok, err,
  ◌>>=◌, if◌then◌else◌, str_eq, truthy, Eq,
}
use fifa_world_cup_ai_agent.Ingestion.Csv.{RawRow, cell}
use fifa_world_cup_ai_agent.Ingestion.Specs.Rename.{put}

-- `int(row[column])` and `row[column]` may raise.
pub data ScopeError : Type 0 where
  key_error value_error : String → ScopeError

module _ {A : Type 0} ⦃e : Eq A⦄ where
  abbrev pub member : A → List A → Bool
  member a [] = false
  member a (b ∷ bs) = e.beq a b || member a bs

abbrev pub has_text : String → List String → Bool
has_text s [] = false
has_text s (t ∷ ts) = str_eq s t || has_text s ts

abbrev pub blank_unless : Bool → String → RawRow → RawRow
blank_unless known column row = if known then row else put column "" row

abbrev pub sanitized_club : String → List String → RawRow → Option String → RawRow
sanitized_club column known_club_ids row none = row
sanitized_club column known_club_ids row (some v) =
    blank_unless (not (truthy v) || has_text v known_club_ids) column row

unfoldable pub sanitize_club_reference : String → List String → RawRow → RawRow
sanitize_club_reference column known_club_ids row =
    sanitized_club column known_club_ids row (cell column row)

abbrev pub present_text : String → Option String → Result ScopeError String
present_text column none = err (key_error column)
present_text column (some v) = ok v

-- One row of a table: kept, changed perhaps, or left out.
abbrev pub keep_if : Bool → RawRow → Option RawRow
keep_if true row = some row
keep_if false row = none

abbrev pub lineup_if : List String → RawRow → Bool → Result ScopeError (Option RawRow)
lineup_if known_club_ids row false = ok none
lineup_if known_club_ids row true = do
  club ← present_text "club_id" (cell "club_id" row)
  ok (keep_if (has_text club known_club_ids) row)

abbrev pub kept_then : Option RawRow → List RawRow → List RawRow
kept_then none rows = rows
kept_then (some row) rows = row ∷ rows

-- The loop over the rows of a table.
unfoldable pub scope_rows :
    (RawRow → Result ScopeError (Option RawRow)) → List RawRow → Result ScopeError (List RawRow)
scope_rows f [] = ok []
scope_rows f (row ∷ rows) = do kept ← f row; rest ← scope_rows f rows; ok (kept_then kept rest)

module _ {Int : Type 0} ⦃e : Eq Int⦄ (int : String → Result String Int) where
  abbrev pub to_int : String → Result ScopeError Int
  to_int v = elim (int v) [ ok i ↦ ok i | err problem ↦ err (value_error problem) ]

  abbrev pub sanitized_player :
      String → List Int → RawRow → Option String → Result ScopeError RawRow
  sanitized_player column real_player_ids row none = ok row
  sanitized_player column real_player_ids row (some v) =
      if truthy v
      then (to_int v >>= (λ i. ok (blank_unless (member i real_player_ids) column row)))
      else ok row

  unfoldable pub sanitize_player_reference : String → List Int → RawRow → Result ScopeError RawRow
  sanitize_player_reference column real_player_ids row =
      sanitized_player column real_player_ids row (cell column row)

  -- `int(row[column]) in ids`
  abbrev pub int_in : String → List Int → RawRow → Result ScopeError Bool
  int_in column ids row = do
    v ← present_text column (cell column row)
    i ← to_int v
    ok (member i ids)

  -- `row.get(column) and int(row[column]) in ids`
  abbrev pub refers_if : List Int → Option String → Result ScopeError Bool
  refers_if ids none = ok false
  refers_if ids (some v) = if truthy v then (to_int v >>= (λ i. ok (member i ids))) else ok false

  unfoldable pub valuation_row : List Int → RawRow → Result ScopeError (Option RawRow)
  valuation_row real_player_ids row = do
    scoped ← int_in "player_id" real_player_ids row
    ok (keep_if scoped row)

  unfoldable pub transfer_row : List Int → List String → RawRow → Result ScopeError (Option RawRow)
  unfolding sanitize_club_reference
  transfer_row real_player_ids known_club_ids row = do
    scoped ← int_in "player_id" real_player_ids row
    ok (
        keep_if scoped (
          sanitize_club_reference "to_club_id" known_club_ids
            (sanitize_club_reference "from_club_id" known_club_ids row)))

  unfoldable pub lineup_row : List Int → List String → RawRow → Result ScopeError (Option RawRow)
  lineup_row real_player_ids known_club_ids row =
      int_in "player_id" real_player_ids row >>= lineup_if known_club_ids row

  abbrev pub or_refers : List Int → RawRow → Bool → Result ScopeError Bool
  or_refers real_club_ids row true = ok true
  or_refers real_club_ids row false = refers_if real_club_ids (cell "club_id" row)

  abbrev pub event_if : List Int → List String → RawRow → Bool → Result ScopeError (Option RawRow)
  event_if real_player_ids known_club_ids row false = ok none
  event_if real_player_ids known_club_ids row true = do
    a ←
        sanitize_player_reference "player_id" real_player_ids
          (sanitize_club_reference "club_id" known_club_ids row)
    b ← sanitize_player_reference "player_in_id" real_player_ids a
    c ← sanitize_player_reference "player_assist_id" real_player_ids b
    ok (some c)

  unfoldable pub event_row :
      List Int → List Int → List String → RawRow → Result ScopeError (Option RawRow)
  unfolding sanitize_club_reference sanitize_player_reference
  event_row real_player_ids real_club_ids known_club_ids row = do
    by_player ← refers_if real_player_ids (cell "player_id" row)
    scoped ← or_refers real_club_ids row by_player
    event_if real_player_ids known_club_ids row scoped

  unfoldable pub club_game_row : List Int → List String → RawRow → Result ScopeError (Option RawRow)
  unfolding sanitize_club_reference
  club_game_row real_club_ids known_club_ids row = do
    scoped ← int_in "club_id" real_club_ids row
    ok (keep_if scoped (sanitize_club_reference "opponent_id" known_club_ids row))
