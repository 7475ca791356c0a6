-- ===== src/Ingestion/Csv.antt =====
-- The parsing and the chunked upsert of one table's rows:
-- backend/src/domain/ingestion/services/csv_ingestion_service.py, with the table specification of
-- backend/src/domain/ingestion/services/table_ingestion_spec.py. The values that parsers make are a
-- parameter, and so is the repository.
pub mod Dedupe
pub mod Chunks
mod Tests
use fifa_world_cup_ai_agent.Prelude.{
  ℕ, suc, ◌+◌, ◌≡◌, String, ◌<>◌, Bool, true, false, Option, none, some, List, [], ◌∷◌, ◌++◌,
  length, Result, ok, err, ◌>>=◌, if◌then◌else◌, str_eq, leb, Eq, list_beq,
}

-- The exceptions of an ingestion: `IngestionValidationError`, a column that `row[column]` misses,
-- and what the database raises.
pub data Failure : Type 0 where
  validation : String → Failure
  key_error : String → Failure
  database : String → Failure

-- A row of `csv.DictReader`. The `None` that it fills a short line with, and the cells beyond the
-- header of a long one, are left out.
abbrev pub RawRow : Type 0
RawRow = List (String × String)

abbrev pub Row : Type 0 → Type 0
Row V = List (String × V)

abbrev pub Key : Type 0 → Type 0
Key V = List V

-- `row[column]`, if it is there.
abbrev pub cell : {V : Type 0} → String → Row V → Option V
cell column [] = none
cell column ((name, value) ∷ row) = if str_eq name column then some value else cell column row

-- `target_schema` is the name of its table; a parser's error is the text of its `ValueError`.
pub record TableIngestionSpec (V : Type 0) : Type 0 where
  pub source_name : String
  pub target_table : String
  pub column_spec : List (String × (String → Result String V))
  pub conflict_columns : List String
  pub row_transform : Option (Row V → Row V)

module _ (decimal : ℕ → String) where
  abbrev missing : ℕ → String → String → Failure
  missing index column table =
      validation (
        "row "
        <> decimal index
        <> ": missing column '"
        <> column
        <> "' for table '"
        <> table
        <> "'")

  abbrev invalid : ℕ → String → String → String → Failure
  invalid index column table problem = validation (
      "row "
      <> decimal index
      <> ": invalid value for column '"
      <> column
      <> "' for table '"
      <> table
      <> "': "
      <> problem)

module _ {V : Type 0} where
  abbrev present_cell : String → Option V → Result Failure V
  present_cell column none = err (key_error column)
  present_cell column (some v) = ok v

  -- `tuple(row[column] for column in conflict_columns)`
  unfoldable pub key_of : List String → Row V → Result Failure (Key V)
  key_of [] row = ok []
  key_of (column ∷ columns) row = do
    v ← present_cell column (cell column row)
    k ← key_of columns row
    ok (v ∷ k)

  abbrev pub transformed : Option (Row V → Row V) → Row V → Row V
  transformed none parsed = parsed
  transformed (some f) parsed = f parsed

  module _ (decimal : ℕ → String) where
    abbrev pub parse_cell :
        ℕ → String → String → (String → Result String V) → Option String → Result Failure V
    parse_cell index table column parser none = err (missing decimal index column table)
    parse_cell index table column parser (some text) = elim (parser text) [
      | ok v ↦ ok v
      | err problem ↦ err (invalid decimal index column table problem)
    ]

    -- The loop of `_parse_row` over the columns.
    unfoldable pub parse_columns :
        ℕ → String → List (String × (String → Result String V)) → RawRow → Result Failure (Row V)
    parse_columns index table [] raw = ok []
    parse_columns index table ((column, parser) ∷ columns) raw = do
      value ← parse_cell index table column parser (cell column raw)
      rest ← parse_columns index table columns raw
      ok ((column, value) ∷ rest)

    unfoldable pub parse_row : TableIngestionSpec V → ℕ → RawRow → Result Failure (Row V)
    unfolding parse_columns
    parse_row spec index raw = do
      parsed ← parse_columns index spec.target_table spec.column_spec raw
      ok (transformed spec.row_transform parsed)

-- What the ingestion asks of a repository: `upsert_many` of rows by their conflict columns.
pub record Repository (V : Type 0) : Type 1 where
  pub Store : Type 0
  pub upsert_many : String → List (Row V) → List String → Store → Result Failure Store

module _ {V : Type 0} ⦃e : Eq V⦄ where
  -- `deduped[key] = row`
  unfoldable pub assign : Key V → Row V → List (Key V × Row V) → List (Key V × Row V)
  assign key row [] = (key, row) ∷ []
  assign key row ((k, r) ∷ rest) =
      let others = assign key row rest in
      if list_beq k key then (k, row) ∷ rest else (k, r) ∷ others

  abbrev values : List (Key V × Row V) → List (Row V)
  values [] = []
  values ((k, r) ∷ rest) = r ∷ values rest

  unfoldable pub dedupe_from :
      List String → List (Key V × Row V) → List (Row V) → Result Failure (List (Key V × Row V))
  unfolding assign
  dedupe_from columns deduped [] = ok deduped
  dedupe_from columns deduped (row ∷ batch) = do
    key ← key_of columns row
    dedupe_from columns (assign key row deduped) batch

  unfoldable pub dedupe_by_conflict_columns :
      List String → List (Row V) → Result Failure (List (Row V))
  unfolding dedupe_from
  dedupe_by_conflict_columns columns batch = do
    deduped ← dedupe_from columns [] batch
    ok (values deduped)

  module _ (decimal : ℕ → String) (repository : Repository V) (spec : TableIngestionSpec V) where
    open repository use {Store, upsert_many}

    -- The upsert of one batch: the rows that were written, and the store.
    unfoldable pub flush : List (Row V) → Store → Result Failure (ℕ × Store)
    unfolding dedupe_by_conflict_columns
    flush batch store = do
      deduped ← dedupe_by_conflict_columns spec.conflict_columns batch
      after ← upsert_many spec.target_table deduped spec.conflict_columns store
      ok (length deduped, after)

    module _ (chunk_size : ℕ) where
      abbrev finish : ℕ → Store → Result Failure (ℕ × Store) → Result Failure ℕ × Store
      finish total store (ok (written, after)) = (ok (total + written), after)
      finish total store (err x) = (err x, store)

      abbrev proceed :
          (ℕ → Store → Result Failure ℕ × Store)
          → ℕ
          → Store
          → Result Failure (ℕ × Store)
          → Result Failure ℕ × Store
      proceed go total store (ok (written, after)) = go (total + written) after
      proceed go total store (err x) = (err x, store)

      abbrev at_end : List (Row V) → ℕ → Store → Result Failure ℕ × Store
      at_end [] total store = (ok total, store)
      at_end (row ∷ batch) total store = finish total store (flush (row ∷ batch) store)

      -- A batch that is full is written and emptied; `go` is the rest of the loop.
      abbrev chunked :
          (List (Row V) → ℕ → Store → Result Failure ℕ × Store)
          → List (Row V)
          → ℕ
          → Store
          → Bool
          → Result Failure ℕ × Store
      chunked go batch total store true = proceed (go []) total store (flush batch store)
      chunked go batch total store false = go batch total store

      -- One turn of the loop, for a row that was parsed.
      abbrev advance :
          (List (Row V) → ℕ → Store → Result Failure ℕ × Store)
          → List (Row V)
          → ℕ
          → Store
          → Result Failure (Row V)
          → Result Failure ℕ × Store
      advance go batch total store (err x) = (err x, store)
      advance go batch total store (ok row) =
          chunked go (batch ++ row ∷ []) total store (leb chunk_size (length (batch ++ row ∷ [])))

      -- The loop of `ingest_rows`: the index of the next row, the batch, the total and the store.
      unfoldable pub ingest_from :
          ℕ → List (Row V) → ℕ → Store → List RawRow → Result Failure ℕ × Store
      ingest_from index batch total store [] = at_end batch total store
      ingest_from index batch total store (raw ∷ rows) =
          advance (λ b t s. ingest_from (suc index) b t s rows) batch total store
            (parse_row decimal spec index raw)

      unfoldable pub ingest_rows : List RawRow → Store → Result Failure ℕ × Store
      unfolding ingest_from
      ingest_rows rows store = ingest_from 0 [] 0 store rows
