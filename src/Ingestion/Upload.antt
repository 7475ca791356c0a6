-- ===== src/Ingestion/Upload.antt =====
-- The jobs that ingest uploaded files:
-- backend/src/domain/ingestion/services/synthetic_ingestion_service.py,
-- backend/src/domain/ingestion/services/bulk_synthetic_ingestion_service.py with
-- backend/src/domain/ingestion/services/job_progress_tracker.py, and their tasks with `_fail_job` of
-- backend/src/infra/task_queue/tasks.py. The state is the committed tables and the committed row of
-- the job; every write commits at once, so that a rollback leaves it. The `n`-th reading of the clock
-- is a parameter, and so are the text of a transition error, the reading of a CSV file, and what the
-- reads and writes of the job's row come to, which may raise.
pub mod Files
pub mod Order
pub mod Ended
mod Tests
use fifa_world_cup_ai_agent.Prelude.{
  ℕ, suc, ◌+◌, String, ◌<>◌, Bool, ◌||◌, Option, none, some, List, [], ◌∷◌, Result, ok, err,
  if◌then◌else◌, str_eq, truthy, Eq,
}
use fifa_world_cup_ai_agent.Ingestion.Job.{
  Job, Status, status_eq, queued, running, TransitionError, mark_running, mark_succeeded,
  mark_failed, record_stage_checkpoint,
}
use fifa_world_cup_ai_agent.Ingestion.Csv.{
  Failure, validation, key_error, database, RawRow, TableIngestionSpec, Repository, ingest_rows,
}
use fifa_world_cup_ai_agent.Ingestion.Upload.Files.{
  ResolvedFile, BatchResolution, stage_of, resolve_and_order_files,
}

-- What a service may raise, by the class of the exception and its text.
pub data Raised : Type 0 where
  raised : String → String → Raised

-- What a write of the job's row comes to: it may raise before its commit, or after it, at the
-- refresh.
pub data Update : Type 0 where
  saved : Update
  refused saved_but : Raised → Update

-- What the tasks know of the program around them.
pub record Setting (V Time : Type 0) : Type 1 where
  pub decimal : ℕ → String
  pub now : ℕ → Time
  pub isoformat : Time → String
  pub transition_text : TransitionError → String
  pub repository : Repository V
  pub specs : List (TableIngestionSpec V)
  -- `csv.DictReader` on the decoded bytes, or the exception of the decoding
  pub parse_csv_rows : List ℕ → Result Raised (List RawRow)
  pub update : Job Time → Update
  -- what the task's read of the job's row raises, a missing row included, and that of `_fail_job`
  -- with its rollback
  pub get_raises : Option Raised
  pub get_again_raises : Option Raised

module _ {V Time : Type 0} ⦃e : Eq V⦄ (setting : Setting V Time) where
  open setting use {
    decimal, now, isoformat, transition_text, repository, specs, parse_csv_rows, update, get_raises,
    get_again_raises,
  }

  pub record Db : Type 0 where
    pub store : repository.Store
    pub job : Job Time

  abbrev pub Run : Type 0 → Type 0
  Run A = Db → Result Raised A × Db

  abbrev pub continue : {A B : Type 0} → (A → Run B) → Result Raised A × Db → Result Raised B × Db
  continue f (ok a, db) = f a db
  continue f (err x, db) = (err x, db)

  infixl 5 ◌>>=◌
  abbrev pub ◌>>=◌ : {A B : Type 0} → Run A → (A → Run B) → Run B
  (m >>= f) db = continue f (m db)

  abbrev pub lift : {A : Type 0} → Result Raised A → Run A
  lift r db = (r, db)

  abbrev pub transition : Result TransitionError (Job Time) → Result Raised (Job Time)
  transition (ok job) = ok job
  transition (err x) = err (raised "InvalidJobTransitionError" (transition_text x))

  -- `ingestion_job_repository.update(job)`
  abbrev pub updated : Update → Job Time → Run (Job Time)
  updated saved job db = (ok job, record db { job = job })
  updated (refused x) job db = (err x, db)
  updated (saved_but x) job db = (err x, record db { job = job })

  abbrev pub persist : Job Time → Run (Job Time)
  persist job = updated (update job) job

  abbrev pub latest_spec :
      TableIngestionSpec V → Option (TableIngestionSpec V) → Option (TableIngestionSpec V)
  latest_spec spec none = some spec
  latest_spec spec (some later) = some later

  -- `_specs_by_name.get`
  abbrev pub find_spec : String → List (TableIngestionSpec V) → Option (TableIngestionSpec V)
  find_spec name [] = none
  find_spec name (spec ∷ rest) =
      let later = find_spec name rest in
      if str_eq spec.source_name name then latest_spec spec later else later

  abbrev pub required :
      Raised → Option (TableIngestionSpec V) → Result Raised (TableIngestionSpec V)
  required x none = err x
  required x (some spec) = ok spec

  -- An `IngestionValidationError` is caught, with its text; any other exception goes on.
  abbrev pub caught : Result Failure ℕ → Result Raised (Result String ℕ)
  caught (ok n) = ok (ok n)
  caught (err (validation text)) = ok (err text)
  caught (err (key_error column)) = err (raised "KeyError" column)
  caught (err (database text)) = err (raised "DBAPIError" text)

  unfoldable pub try_rows : TableIngestionSpec V → List RawRow → Run (Result String ℕ)
  try_rows spec rows db =
      let (result, store) = ingest_rows decimal repository spec 500 rows db.store in
      (caught result, record db { store = store })

  unfoldable pub close_failed : String → ℕ → Job Time → Run (Job Time)
  close_failed text n job =
      lift (transition (mark_failed text (now n) job)) >>= (λ failed_job. persist failed_job)

  unfoldable pub close_succeeded : List (String × ℕ) → ℕ → Job Time → Run (Job Time)
  close_succeeded row_counts n job =
      lift (transition (mark_succeeded row_counts (now n) job)) >>= (λ done. persist done)

  abbrev pub close : String → Job Time → Result String ℕ → Run (Job Time)
  close table_name running_job (ok row_count) =
      close_succeeded ((table_name, row_count) ∷ []) 1 running_job
  close table_name running_job (err text) = close_failed text 1 running_job

  unfoldable pub ingest_upload : String → List RawRow → Job Time → Run (Job Time)
  unfolding try_rows close_succeeded close_failed
  ingest_upload table_name rows job = do
    spec ← lift (
        required
          (raised "UnknownTableError" ("unknown synthetic ingestion table '" <> table_name <> "'"))
          (find_spec table_name specs))
    running_job ← lift (transition (mark_running (now 0) job))
    running_job ← persist running_job
    attempt ← try_rows spec rows
    close table_name running_job attempt

  -- `row_counts[table] = row_counts.get(table, 0) + count`
  abbrev pub add_count : String → ℕ → List (String × ℕ) → List (String × ℕ)
  add_count table n [] = (table, n) ∷ []
  add_count table n ((t, m) ∷ counts) =
      let rest = add_count table n counts in
      if str_eq t table then (t, m + n) ∷ counts else (t, m) ∷ rest

  abbrev known_stage : String → Option String → Result Raised String
  known_stage name none = err (raised "ValueError" name)
  known_stage name (some stage) = ok stage

  -- `progress.checkpoint`
  unfoldable pub checkpoint : String → ℕ → Job Time → Run (Job Time)
  checkpoint table n job = lift (known_stage table (stage_of table)) >>= (λ stage.
      lift (transition (record_stage_checkpoint isoformat stage (now n) job))
      >>= (λ next. persist next))

  abbrev pub after_file :
      (List (String × ℕ) → Job Time → Run (Job Time))
      → ℕ
      → List (String × ℕ)
      → Job Time
      → String
      → Result String ℕ
      → Run (Job Time)
  after_file go n counts job table (err text) = close_failed text n job
  after_file go n counts job table (ok count) =
      checkpoint table n job >>= (λ next. go (add_count table count counts) next)

  -- The loop over the files, `n` readings of the clock along.
  unfoldable pub ingest_files :
      ℕ → List (String × ℕ) → Job Time → List ResolvedFile → Run (Job Time)
  ingest_files n counts job [] = close_succeeded counts n job
  ingest_files n counts job (file ∷ files) = do
    spec ← lift (required (raised "KeyError" file.table_name) (find_spec file.table_name specs))
    rows ← lift (parse_csv_rows file.csv_bytes)
    attempt ← try_rows spec rows
    after_file (λ c j. ingest_files (suc n) c j files) n counts job file.table_name attempt

  unfoldable pub ingest_batch : List ResolvedFile → Job Time → Run (Job Time)
  unfolding ingest_files
  ingest_batch files job = do
    running_job ← lift (transition (mark_running (now 0) job))
    running_job ← persist running_job
    ingest_files 1 [] running_job files

  abbrev failed_or : Job Time → Result TransitionError (Job Time) → Job Time
  failed_or job (ok failed_job) = failed_job
  failed_or job (err x) = job

  abbrev pub raise_or : {A : Type 0} → Option Raised → Run A → Run A
  raise_or none m db = m db
  raise_or (some x) m db = (err x, db)

  abbrev pub message_of : Raised → String
  message_of (raised class_name text) = if truthy text then text else class_name

  -- `_fail_job`
  unfoldable pub fail_job : Raised → Run (Job Time)
  fail_job x = raise_or get_again_raises (λ db.
      if status_eq db.job.status queued || status_eq db.job.status running
      then persist (failed_or db.job (mark_failed (message_of x) (now 0) db.job)) db
      else (ok db.job, db))

  -- The exception goes on, or that of `_fail_job` in its place.
  abbrev pub reraised : Raised → Result Raised (Job Time) × Db → Result Raised (Job Time) × Db
  reraised x (ok job, db) = (err x, db)
  reraised x (err y, db) = (err y, db)

  -- A task reads the job's row and runs the service in its `try`, with `_fail_job` for what it raises.
  abbrev pub settled : Result Raised (Job Time) × Db → Result Raised (Job Time) × Db
  settled (ok job, db) = (ok job, db)
  settled (err x, db) = reraised x (fail_job x db)

  unfoldable pub with_job : (Job Time → Run (Job Time)) → Run (Job Time)
  with_job body = raise_or get_raises (λ db. body db.job db)

  unfoldable pub run_task : (Job Time → Run (Job Time)) → Job Time → Run (Job Time)
  unfolding fail_job
  run_task service job db = settled (service job db)

  unfoldable pub synthetic_upload_task : String → List ℕ → Run (Job Time)
  unfolding with_job run_task ingest_upload
  synthetic_upload_task table_name csv_bytes = with_job (
      run_task
        (λ job. lift (parse_csv_rows csv_bytes) >>= (λ rows. ingest_upload table_name rows job)))

  abbrev pub batch_or_raise : Option BatchResolution → Job Time → Run (Job Time)
  batch_or_raise none job = lift (err (raised "ValueError" "not in the ingestion order"))
  batch_or_raise (some resolution) job = run_task (ingest_batch resolution.accepted) job

  unfoldable pub bulk_synthetic_upload_task : List (String × List ℕ) → Run (Job Time)
  unfolding with_job run_task ingest_batch
  bulk_synthetic_upload_task files = with_job (batch_or_raise (resolve_and_order_files files))
