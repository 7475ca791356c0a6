-- ===== src/Ingestion/SeasonStats/Totals.antt =====
-- What the groups of an aggregation add up to.
use fifa_world_cup_ai_agent.Prelude.{
  ℕ, ◌+◌, String, ◌≡◌, Bool-cases, Option, Option-cases, none, List, [], ◌∷◌, length, Result, ok,
  err, inl, inr, arith,
}
use fifa_world_cup_ai_agent.Ingestion.SeasonStats.{
  Column, AppearanceRow, Game, Key, Group, UnknownGame, unknown_game, key_eq, key_of, add_row,
  aggregate_from, aggregate,
}

abbrev pub appearances_of : List Group → ℕ
appearances_of [] = 0
appearances_of (g ∷ gs) = g.appearances + appearances_of gs

abbrev pub total_of : Column → List Group → ℕ
total_of c [] = 0
total_of c (g ∷ gs) = g.column c + total_of c gs

abbrev pub row_total : Column → List AppearanceRow → ℕ
row_total c [] = 0
row_total c (row ∷ rows) = row.column c + row_total c rows

add_row-appearances :
    (key : Key) (row : AppearanceRow) (gs : List Group)
    → appearances_of (add_row key row gs) ≡ appearances_of gs + 1
unfolding add_row
add_row-appearances key row [] = omega arith
add_row-appearances key row (g ∷ gs) =
    let rest = add_row-appearances key row gs in
    elim (Bool-cases (key_eq g.key key)) [
      | inl e ↦ rw e (omega arith)
      | inr e ↦ rw e (omega (arith, rest))
    ]

add_row-total :
    (c : Column) (key : Key) (row : AppearanceRow) (gs : List Group)
    → total_of c (add_row key row gs) ≡ total_of c gs + row.column c
unfolding add_row
add_row-total c key row [] = omega arith
add_row-total c key row (g ∷ gs) =
    let rest = add_row-total c key row gs in
    elim (Bool-cases (key_eq g.key key)) [
      | inl e ↦ rw e (omega arith)
      | inr e ↦ rw e (omega (arith, rest))
    ]

-- The outcome for rows that are added to groups.
abbrev pub Totals :
    (String → Option Game)
    → List Group
    → List AppearanceRow
    → Result UnknownGame (List Group)
    → Type 0
Totals games_by_id old rows (ok groups) =
    (appearances_of groups ≡ appearances_of old + length rows)
    × ((c : Column) → total_of c groups ≡ total_of c old + row_total c rows)
Totals games_by_id old rows (err (unknown_game id)) = games_by_id id ≡ none

Totals-step :
    (games_by_id : String → Option Game) (old : List Group) (key : Key) (row : AppearanceRow)
    (rows : List AppearanceRow) (result : Result UnknownGame (List Group))
    → Totals games_by_id (add_row key row old) rows result
    → Totals games_by_id old (row ∷ rows) result
Totals-step games_by_id old key row rows (ok groups) (p, q) = (
  omega (arith, p, add_row-appearances key row old),
  λ c. omega (arith, q c, add_row-total c key row old),
)
Totals-step games_by_id old key row rows (err (unknown_game id)) h = h

aggregate_from-Totals :
    (games_by_id : String → Option Game) (old : List Group) (rows : List AppearanceRow)
    → Totals games_by_id old rows (aggregate_from games_by_id old rows)
unfolding aggregate_from
aggregate_from-Totals games_by_id old [] = (omega arith, λ c. omega arith)
aggregate_from-Totals games_by_id old (row ∷ rows) = elim (Option-cases (games_by_id row.game_id)) [
  | inl e ↦ rw e e
  | inr (game, e) ↦ rw e (
      Totals-step games_by_id old (key_of row game) row rows
        (aggregate_from games_by_id (add_row (key_of row game) row old) rows)
        (aggregate_from-Totals games_by_id (add_row (key_of row game) row old) rows))
]

-- An aggregation that returns has counted every appearance once and lost nothing of any column: the
-- groups' sums are those of the rows. One that raises names a game that is not known.
pub aggregate-Totals :
    (games_by_id : String → Option Game) (rows : List AppearanceRow)
    → Totals games_by_id [] rows (aggregate games_by_id rows)
unfolding aggregate
aggregate-Totals games_by_id rows = aggregate_from-Totals games_by_id [] rows
