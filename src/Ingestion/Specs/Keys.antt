-- ===== src/Ingestion/Specs/Keys.antt =====
-- The columns of a row after parsing and renaming, and the keys that they make.
use fifa_world_cup_ai_agent.Prelude.{
  ℕ, ◌≡◌, refl, sym, subst, ap, ◌∙◌, String, Bool, true, false, ◌&&◌, ◌||◌, ◌⊎◌, Bool-cases, inl,
  inr, none, some, List, [], ◌∷◌, All, Result, Result-cases, ok, ◌>>=◌, str_eq, if◌then◌else◌,
  arith, Eq,
}
use fifa_world_cup_ai_agent.Ingestion.Csv.{
  Failure, RawRow, Row, Key, cell, TableIngestionSpec, key_of, transformed, parse_cell,
  parse_columns, parse_row,
}
use fifa_world_cup_ai_agent.Ingestion.Csv.Chunks.{MakesKeys}
use fifa_world_cup_ai_agent.Ingestion.Values.{Python, Value}
use fifa_world_cup_ai_agent.Ingestion.Specs.Rename.{put, drop, rename_one, rename}
use fifa_world_cup_ai_agent.Ingestion.Specs.Synthetic.{synthetic_table_specs}
use fifa_world_cup_ai_agent.Ingestion.Specs.Transfermarkt.{
  real_player_renames, real_player_valuation_renames, real_transfer_renames,
  real_game_lineup_renames, real_match_event_renames, real_club_game_renames, transfermarkt_specs,
}

abbrev has : String → List String → Bool
has c [] = false
has c (n ∷ names) = str_eq n c || has c names

abbrev has_all : List String → List String → Bool
has_all [] names = true
has_all (c ∷ cs) names = has c names && has_all cs names

abbrev put_name : String → List String → List String
put_name c [] = c ∷ []
put_name c (n ∷ names) = let rest = put_name c names in if str_eq n c then n ∷ names else n ∷ rest

abbrev drop_name : String → List String → List String
drop_name c [] = []
drop_name c (n ∷ names) = let rest = drop_name c names in if str_eq n c then names else n ∷ rest

abbrev rename_name : String → String → List String → List String
rename_name source target names =
    if has source names then put_name target (drop_name source names) else names

abbrev rename_names : List (String × String) → List String → List String
rename_names [] names = names
rename_names ((source, target) ∷ renames) names =
    rename_names renames (rename_name source target names)

module _ {V : Type 0} where
  abbrev names_of : Row V → List String
  names_of [] = []
  names_of ((n, v) ∷ row) = n ∷ names_of row

  abbrev spec_names : List (String × (String → Result String V)) → List String
  spec_names [] = []
  spec_names ((n, p) ∷ columns) = n ∷ spec_names columns

  names-put :
      (c : String) (v : V) (row : Row V) → names_of (put c v row) ≡ put_name c (names_of row)
  names-put c v [] = refl
  names-put c v ((n, w) ∷ row) = elim (Bool-cases (str_eq n c)) [
    | inl t ↦ rw t refl
    | inr t ↦ rw t (ap (λ l. n ∷ l) (names-put c v row))
  ]

  names-drop : (c : String) (row : Row V) → names_of (drop c row) ≡ drop_name c (names_of row)
  names-drop c [] = refl
  names-drop c ((n, w) ∷ row) = elim (Bool-cases (str_eq n c)) [
    | inl t ↦ rw t refl
    | inr t ↦ rw t (ap (λ l. n ∷ l) (names-drop c row))
  ]

  -- Whether a cell is there, by the names.
  cell_or :
      (c : String) (row : Row V)
      → ((v : V) × (cell c row ≡ some v) × (has c (names_of row) ≡ true))
        ⊎ ((cell c row ≡ none) × (has c (names_of row) ≡ false))
  cell_or c [] = inr (refl, refl)
  cell_or c ((n, w) ∷ row) = elim (Bool-cases (str_eq n c)) [
    | inl t ↦ inl (w, rw t refl, rw t refl)
    | inr t ↦ rw t (cell_or c row)
  ]

  names-rename_one :
      (source target : String) (row : Row V)
      → names_of (rename_one source target row) ≡ rename_name source target (names_of row)
  names-rename_one source target row = elim (cell_or source row) [
    | inl (v, c, h) ↦
        rw (c, h)
          (names-put target v (drop source row) ∙ ap (put_name target) (names-drop source row))
    | inr (c, h) ↦ rw (c, h) refl
  ]

  names-rename :
      (renames : List (String × String)) (row : Row V)
      → names_of (rename renames row) ≡ rename_names renames (names_of row)
  names-rename [] row = refl
  names-rename ((source, target) ∷ renames) row =
      names-rename renames (rename_one source target row)
      ∙ ap (rename_names renames) (names-rename_one source target row)

  has_all-key :
      (columns : List String) (row : Row V)
      → has_all columns (names_of row) ≡ true
      → (k : Key V) × (key_of columns row ≡ ok k)
  unfolding key_of
  has_all-key [] row h = ([], refl)
  has_all-key (c ∷ columns) row h = elim (cell_or c row) [
    | inl (v, p, q) ↦
        let (k, r) = has_all-key columns row (ground (arith, h)) in (v ∷ k, rw (p, r) refl)
    | inr (p, q) ↦ ground (arith, q, h)
  ]

  module _ (decimal : ℕ → String) where
    parse_columns-names :
        (i : ℕ) (table : String) (columns : List (String × (String → Result String V)))
        (raw : RawRow) (row : Row V)
        → parse_columns decimal i table columns raw ≡ ok row
        → names_of row ≡ spec_names columns
    unfolding parse_columns
    parse_columns-names i table [] raw row h = let p : row ≡ [] = cc h in ap names_of p
    parse_columns-names i table ((c, parser) ∷ columns) raw row h =
        elim (Result-cases (parse_cell decimal i table c parser (cell c raw))) [
          | inr (x, p) ↦ cc (
            h,
            ap
                (λ r. r >>= (λ v.
                  parse_columns decimal i table columns raw >>= (λ rest. ok ((c, v) ∷ rest))))
                p,
          )
          | inl (v, p) ↦ elim (Result-cases (parse_columns decimal i table columns raw)) [
            | inr (x, q) ↦ cc (h, p, q)
            | inl (rest, q) ↦
                let ih = parse_columns-names i table columns raw rest q in
                let e : ◌≡◌ {A = Result Failure (Row V)} (ok row) (ok ((c, v) ∷ rest)) =
                  sym h ∙ rw (p, q) refl in
                let r : row ≡ (c, v) ∷ rest = cc e in ap names_of r ∙ ap (λ l. c ∷ l) ih
          ]
        ]

    -- What a specification's transform does to the names of its columns.
    abbrev pub Names : TableIngestionSpec V → (List String → List String) → Type 0
    Names spec g = (row : Row V) → names_of (transformed spec.row_transform row) ≡ g (names_of row)

    module _ ⦃e : Eq V⦄ where
      pub makes_keys :
          (spec : TableIngestionSpec V) (g : List String → List String)
          → Names spec g
          → has_all spec.conflict_columns (g (spec_names spec.column_spec)) ≡ true
          → MakesKeys decimal spec
      unfolding parse_row
      makes_keys spec g n h i raw row p =
          elim (Result-cases (parse_columns decimal i spec.target_table spec.column_spec raw)) [
            | inr (x, q) ↦ cc (p, q)
            | inl (parsed, q) ↦
                let e : ◌≡◌ {A = Result Failure (Row V)} (ok row)
                    (ok (transformed spec.row_transform parsed)) =
                  sym p ∙ rw q refl in
                let r : row ≡ transformed spec.row_transform parsed = cc e in
                let names =
                  ap names_of r
                  ∙ n parsed
                  ∙ ap g (parse_columns-names i spec.target_table spec.column_spec raw parsed q) in
                has_all-key spec.conflict_columns row
                  (subst (λ l. has_all spec.conflict_columns l ≡ true) (sym names) h)
          ]

module _ (python : Python) (decimal : ℕ → String) ⦃e : Eq (Value python)⦄ where
  as_it_is : (row : Row (Value python)) → names_of row ≡ names_of row
  as_it_is row = refl

  -- Every row that a table of the synthetic dataset parses has the columns of its conflict key.
  pub synthetic_table_specs-MakesKeys :
      All
        (λ (spec : TableIngestionSpec (Value python)). MakesKeys decimal spec)
        (synthetic_table_specs python)
  synthetic_table_specs-MakesKeys =
      let key = λ (spec : TableIngestionSpec (Value python)). makes_keys decimal spec (λ l. l) in
      (
        key _ as_it_is refl,
        (
          key _ as_it_is refl,
          (
            key _ as_it_is refl,
            (
              key _ as_it_is refl,
              (
                key _ as_it_is refl,
                (
                  key _ as_it_is refl,
                  (
                    key _ as_it_is refl,
                    (key _ as_it_is refl, (key _ as_it_is refl, (key _ as_it_is refl, tt))),
                  ),
                ),
              ),
            ),
          ),
        ),
      )

  renamed :
      (renames : List (String × String)) (row : Row (Value python))
      → names_of (rename renames row) ≡ rename_names renames (names_of row)
  renamed renames row = names-rename renames row

  -- Every row that a table of the Transfermarkt data parses has, under its new names, the columns of
  -- its conflict key.
  pub transfermarkt_specs-MakesKeys :
      (now : Value python)
      → All
          (λ (spec : TableIngestionSpec (Value python)). MakesKeys decimal spec)
          (transfermarkt_specs python now)
  transfermarkt_specs-MakesKeys now =
      let key = λ (spec : TableIngestionSpec (Value python)) (renames : List (String × String)).
        makes_keys decimal spec (rename_names renames) in
      (
        key _ (("total_market_value", "total_market_value_eur") ∷ [])
            (renamed (("total_market_value", "total_market_value_eur") ∷ [])) refl,
        (
          makes_keys decimal _ (λ l. put_name "last_synced_at" (rename_names real_player_renames l))
              (λ row.
                names-put "last_synced_at" now (rename real_player_renames row)
                ∙ ap (put_name "last_synced_at") (renamed real_player_renames row))
              refl,
          (
            key _ real_player_valuation_renames (renamed real_player_valuation_renames) refl,
            (
              key _ real_transfer_renames (renamed real_transfer_renames) refl,
              (
                key _ real_game_lineup_renames (renamed real_game_lineup_renames) refl,
                (
                  key _ real_match_event_renames (renamed real_match_event_renames) refl,
                  (key _ real_club_game_renames (renamed real_club_game_renames) refl, tt),
                ),
              ),
            ),
          ),
        ),
      )
