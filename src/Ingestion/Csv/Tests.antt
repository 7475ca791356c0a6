-- ===== src/Ingestion/Csv/Tests.antt =====
-- A table of two columns kept as a list of rows, and the theorem of this folder at four rows.
use fifa_world_cup_ai_agent.Prelude.{
  sym, subst, ◌∙◌, ℕ, ◌≡◌, refl, String, none, List, [], ◌∷◌, ◌++◌, Result, ok, err, nat_eq, arith,
  if◌then◌else◌, str_eq, ◌>>=◌,
}
use fifa_world_cup_ai_agent.Ingestion.Csv.{
  Failure, RawRow, Row, Key, TableIngestionSpec, Repository, key_of, values, ingest_rows,
  dedupe_by_conflict_columns,
}
use fifa_world_cup_ai_agent.Ingestion.Csv.Dedupe.{latest, HasKeys, Deduped, dedupe-Deduped}
use fifa_world_cup_ai_agent.Ingestion.Csv.Chunks.{
  latest-append, UpsertTable, MakesKeys, Outcome, ingest_rows-Outcome,
}
use fifa_world_cup_ai_agent.Ingestion.Specs.Keys.{makes_keys}

abbrev digit : String → Result String ℕ
digit s = if str_eq s "1" then ok 1 else if str_eq s "2" then ok 2 else err "not a digit"

abbrev spec : TableIngestionSpec ℕ
spec = record {
  source_name = "team";
  target_table = "team";
  column_spec = ("id", digit) ∷ ("elo", digit) ∷ [];
  conflict_columns = "id" ∷ [];
  row_transform = none;
}

-- The keyed rows of a table, in the order of their writes.
abbrev Table : Type 0
Table = List (Key ℕ × Row ℕ)

abbrev keyed_rows : List String → List (Row ℕ) → Result Failure Table
keyed_rows columns [] = ok []
keyed_rows columns (row ∷ rows) = do
  k ← key_of columns row
  ps ← keyed_rows columns rows
  ok ((k, row) ∷ ps)

abbrev log : Repository ℕ
log = record {
  Store = Table;
  upsert_many = λ table rows columns store. do
    ps ← keyed_rows columns rows
    ok (store ++ ps);
}

keyed_rows-values :
    (columns : List String) (ps : Table)
    → HasKeys columns ps
    → keyed_rows columns (values ps) ≡ ok ps
keyed_rows-values columns [] h = refl
keyed_rows-values columns ((k, row) ∷ ps) h = rw (h.0, keyed_rows-values columns ps h.1) refl

wrote :
    (store kept : Table)
    → HasKeys ("id" ∷ []) kept
    → log.upsert_many "team" (values kept) ("id" ∷ []) store ≡ ok (store ++ kept)
wrote store kept h = rw (keyed_rows-values ("id" ∷ []) kept h) refl

log_table : UpsertTable log "team" ("id" ∷ [])
log_table = record {
  read = λ store k. latest k store none;
  upsert = λ kept store after u h e k.
      let s : ok (store ++ kept) ≡ ok after = sym (wrote store kept h) ∙ e in
      let t : store ++ kept ≡ after = cc s in
      subst (λ l. latest k l none ≡ latest k kept (latest k store none)) t
        (latest-append k store kept none);
}

shown : ℕ → String
shown n = "n"

spec-MakesKeys : MakesKeys shown spec
spec-MakesKeys = makes_keys shown spec (λ l. l) (λ row. refl) refl

abbrev line : String → String → RawRow
line id elo = ("id", id) ∷ ("elo", elo) ∷ []

abbrev lines : List RawRow
lines = line "1" "1" ∷ line "1" "2" ∷ line "2" "1" ∷ line "x" "1" ∷ []

ingest_rows-Outcome_example :
    Outcome shown spec log log_table 2 0 [] lines [] (ingest_rows shown log spec 2 lines [])
ingest_rows-Outcome_example =
    ingest_rows-Outcome shown spec log log_table 2 lines [] spec-MakesKeys (omega arith)

abbrev team : ℕ → ℕ → Row ℕ
team id elo = ("id", id) ∷ ("elo", elo) ∷ []

abbrev batch : Table
batch = (1 ∷ [], team 1 1) ∷ (2 ∷ [], team 2 1) ∷ (1 ∷ [], team 1 2) ∷ []

dedupe-Deduped_example :
    Deduped ("id" ∷ []) batch (dedupe_by_conflict_columns ("id" ∷ []) (values batch))
unfolding key_of
dedupe-Deduped_example = dedupe-Deduped ("id" ∷ []) batch (refl, (refl, (refl, tt)))
