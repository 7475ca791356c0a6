-- ===== src/Ingestion/Job.antt =====
-- `IngestionJob` of backend/src/domain/ingestion/model/ingestion_job.py: a durable job and its
-- status transitions. `datetime.now(UTC)` is the argument `now` of each transition; the type of
-- times and `datetime.isoformat` belong to Python and are parameters.
pub mod Life
use fifa_world_cup_ai_agent.Prelude.{
  ℕ, String, ◌≡◌, Bool, true, false, Option, none, some, List, [], ◌∷◌, ◌++◌, ◌||◌, Result, ok, err,
  ◌>>=◌, if◌then◌else◌,
}

pub data JobType : Type 0 where
  synthetic_upload transfermarkt_sync identity_link_rematch bulk_synthetic_upload : JobType

pub data Status : Type 0 where
  queued running succeeded failed : Status

-- `a == b` of two members of `IngestionJobStatus`.
abbrev pub status_eq : Status → Status → Bool
status_eq queued queued = true
status_eq running running = true
status_eq succeeded succeeded = true
status_eq failed failed = true
status_eq _ _ = false

-- One dict of `stage_checkpoints`.
pub record Checkpoint : Type 0 where
  pub stage : String
  pub completed_at : String

pub record Job (Time : Type 0) : Type 0 where
  pub id : Option ℕ
  pub job_type : JobType
  pub status : Status
  pub source_label : String
  pub requested_by_user_id : ℕ
  pub row_counts : List (String × ℕ)
  pub error_message : Option String
  pub current_stage : Option String
  pub stage_checkpoints : List Checkpoint
  pub created_at : Option Time
  pub started_at : Option Time
  pub finished_at : Option Time

-- `InvalidJobTransitionError`, with the status that refused and the transition that was asked for.
pub data TransitionError : Type 0 where
  cannot_run cannot_succeed cannot_checkpoint cannot_fail : Status → TransitionError

module _ {Time : Type 0} where
  unfoldable pub mark_running : Time → Job Time → Result TransitionError (Job Time)
  mark_running now job =
      if status_eq job.status queued
      then ok (record job { status = running; started_at = some now })
      else err (cannot_run job.status)

  unfoldable pub mark_succeeded :
      List (String × ℕ) → Time → Job Time → Result TransitionError (Job Time)
  mark_succeeded counts now job =
      if status_eq job.status running
      then ok (record job { status = succeeded; row_counts = counts; finished_at = some now })
      else err (cannot_succeed job.status)

  unfoldable pub mark_failed : String → Time → Job Time → Result TransitionError (Job Time)
  mark_failed error now job =
      if status_eq job.status queued || status_eq job.status running
      then ok (record job { status = failed; error_message = some error; finished_at = some now })
      else err (cannot_fail job.status)

module _ {Time : Type 0} (isoformat : Time → String) where
  unfoldable pub record_stage_checkpoint :
      String → Time → Job Time → Result TransitionError (Job Time)
  record_stage_checkpoint stage now job =
      if status_eq job.status running
      then ok (record job {
        current_stage = some stage;
        stage_checkpoints =
            job.stage_checkpoints ++ record { stage = stage; completed_at = isoformat now } ∷ [];
      })
      else err (cannot_checkpoint job.status)
