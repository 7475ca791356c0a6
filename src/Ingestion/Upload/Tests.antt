-- ===== src/Ingestion/Upload/Tests.antt =====
-- A setting of one table whose decoder knows two files, and the theorems of this folder at it.
use fifa_world_cup_ai_agent.Prelude.{
  ℕ, ◌≡◌, refl, String, true, none, some, List, [], ◌∷◌, Result, ok, err, nat_eq, if◌then◌else◌,
  str_eq,
}
use fifa_world_cup_ai_agent.Ingestion.Job.{
  TransitionError, Job, Status, failed, queued, bulk_synthetic_upload,
}
use fifa_world_cup_ai_agent.Ingestion.Csv.{RawRow, Row, TableIngestionSpec, Repository}
use fifa_world_cup_ai_agent.Ingestion.Upload.{
  Raised, raised, Update, saved, refused, Setting, Db, synthetic_upload_task,
  bulk_synthetic_upload_task,
}
use fifa_world_cup_ai_agent.Ingestion.Upload.Ended.{is_ended, IsWritten, upload_tasks-is_ended}

abbrev rows_kept : Repository ℕ
rows_kept = record { Store = List (Row ℕ); upsert_many = λ table rows columns store. ok rows }

abbrev digit : String → Result String ℕ
digit s = if str_eq s "1" then ok 1 else err "not a digit"

abbrev team : TableIngestionSpec ℕ
team = record {
  source_name = "team";
  target_table = "team";
  column_spec = ("id", digit) ∷ [];
  conflict_columns = "id" ∷ [];
  row_transform = none;
}

abbrev decoded : List ℕ → Result Raised (List RawRow)
decoded (byte ∷ []) = ok ((("id", "1") ∷ []) ∷ [])
decoded _ = err (raised "UnicodeDecodeError" "invalid start byte")

abbrev refusal : TransitionError → String
refusal x = "refused"

-- Only the writes of failed jobs get through.
abbrev only_failed : Status → Update
only_failed failed = saved
only_failed _ = refused (raised "OperationalError" "connection lost")

abbrev written : Job ℕ → Update
written job = only_failed job.status

abbrev setting : Setting ℕ ℕ
setting = record {
  decimal = λ n. "n";
  now = λ n. n;
  isoformat = λ t. "t";
  transition_text = refusal;
  repository = rows_kept;
  specs = team ∷ [];
  parse_csv_rows = decoded;
  update = written;
  get_raises = none;
  get_again_raises = none;
}

abbrev db : Db setting
db = record {
  store = [];
  job = record {
    id = some 7;
    job_type = bulk_synthetic_upload;
    status = queued;
    source_label = "upload";
    requested_by_user_id = 1;
    row_counts = [];
    error_message = none;
    current_stage = none;
    stage_checkpoints = [];
    created_at = none;
    started_at = none;
    finished_at = none;
  };
}

failed-IsWritten : (job : Job ℕ) → job.status ≡ failed → IsWritten setting (written job)
failed-IsWritten job h = rw h tt

upload_tasks-is_ended_example :
    ((table : String) (csv_bytes : List ℕ)
      → is_ended (synthetic_upload_task setting table csv_bytes db).1.job.status ≡ true)
    × ((files : List (String × List ℕ))
        → is_ended (bulk_synthetic_upload_task setting files db).1.job.status ≡ true)
upload_tasks-is_ended_example = upload_tasks-is_ended setting failed-IsWritten refl refl db

abbrev uploads : List (String × List ℕ)
uploads =
    ("matches.csv", 1 ∷ [])
    ∷ ("teams.csv", 1 ∷ [])
    ∷ ("notes.txt", [])
    ∷ ("teams.csv", 1 ∷ 2 ∷ [])
    ∷ []
