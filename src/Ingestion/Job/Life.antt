-- ===== src/Ingestion/Job/Life.antt =====
-- The transitions of ingestion_job.py as operations of one type, and their sequences: what a task
-- does with its job between creation and end.
pub mod Invariant
pub mod Order
pub mod History
mod Tests
use fifa_world_cup_ai_agent.Prelude.{ℕ, String, List, [], ◌∷◌, Result, ok, err, ◌>>=◌}
use fifa_world_cup_ai_agent.Ingestion.Job.{
  Job, TransitionError, mark_running, mark_succeeded, mark_failed, record_stage_checkpoint,
}

pub data Op (Time : Type 0) : Type 0 where
  run : Time → Op Time
  succeed : List (String × ℕ) → Time → Op Time
  checkpoint : String → Time → Op Time
  fail : String → Time → Op Time

module _ {Time : Type 0} (isoformat : Time → String) where
  unfoldable pub apply : Op Time → Job Time → Result TransitionError (Job Time)
  unfolding mark_running mark_succeeded mark_failed record_stage_checkpoint
  apply (run now) j = mark_running now j
  apply (succeed counts now) j = mark_succeeded counts now j
  apply (checkpoint stage now) j = record_stage_checkpoint isoformat stage now j
  apply (fail error now) j = mark_failed error now j

  -- The transitions one after another; the first that raises ends the sequence.
  unfoldable pub perform : List (Op Time) → Job Time → Result TransitionError (Job Time)
  unfolding apply
  perform [] j = ok j
  perform (op ∷ ops) j = apply op j >>= perform ops
