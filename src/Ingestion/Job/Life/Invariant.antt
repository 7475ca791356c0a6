-- ===== src/Ingestion/Job/Life/Invariant.antt =====
-- The invariant of an `IngestionJob` under every sequence of transitions.
use mathlib.Core.Option
use fifa_world_cup_ai_agent.Prelude.{
  String, ◌≡◌, refl, inl, inr, Result-cases, ap, ◌∙◌, sym, true, none, some, List, [], ◌∷◌, ◌++◌,
  is_some, last?, last?-snoc, ok, arith,
}
use fifa_world_cup_ai_agent.Ingestion.Job.{
  Job, Status, Checkpoint, queued, running, succeeded, failed,
}
use fifa_world_cup_ai_agent.Ingestion.Job.Life.{Op, checkpoint, apply, perform}

-- What the time stamps, the error and the checkpoints say at each status.
abbrev pub Stamps : {Time : Type 0} → Status → Job Time → Type 0
Stamps queued j =
    (j.started_at ≡ none)
    × (j.finished_at ≡ none)
    × (j.error_message ≡ none)
    × (j.stage_checkpoints ≡ [])
Stamps running j = (is_some j.started_at ≡ true) × (j.finished_at ≡ none) × (j.error_message ≡ none)
Stamps succeeded j =
    (is_some j.started_at ≡ true) × (is_some j.finished_at ≡ true) × (j.error_message ≡ none)
Stamps failed j = (is_some j.finished_at ≡ true) × (is_some j.error_message ≡ true)

abbrev pub stage_of : Checkpoint → String
stage_of c = c.stage

-- A job as the transitions leave it: its stamps fit its status, and `current_stage` is the stage of
-- the last checkpoint.
pub record IsConsistent {Time : Type 0} (j : Job Time) : Type 0 where
  pub stamps : Stamps j.status j
  pub current : j.current_stage ≡ Option.map stage_of (last? j.stage_checkpoints)

module _ {Time : Type 0} (isoformat : Time → String) where
  stage-snoc :
      (cs : List Checkpoint) (stage : String) (c : Checkpoint)
      → stage_of c ≡ stage
      → some stage ≡ Option.map stage_of (last? (cs ++ c ∷ []))
  stage-snoc cs stage c e = ap some (sym e) ∙ sym (ap (Option.map stage_of) (last?-snoc cs c))

  -- One accepted transition keeps a job consistent.
  pub apply-IsConsistent :
      (op : Op Time) (j k : Job Time)
      → IsConsistent j
      → apply isoformat op j ≡ ok k
      → IsConsistent k
  unfolding apply
  apply-IsConsistent (checkpoint stage now) j k c h = ground (
    arith,
    stage-snoc j.stage_checkpoints stage (record { stage = stage; completed_at = isoformat now })
        refl,
  )
  apply-IsConsistent _ j k c h = ground arith

  -- Every sequence of transitions that a consistent job accepts leaves a consistent job: the time
  -- stamps and the error fit the status, and the current stage is that of the last checkpoint.
  pub perform-IsConsistent :
      (ops : List (Op Time)) (j k : Job Time)
      → IsConsistent j
      → perform isoformat ops j ≡ ok k
      → IsConsistent k
  unfolding perform
  perform-IsConsistent [] j k c h = ground arith
  perform-IsConsistent (op ∷ ops) j k c h = elim (Result-cases (apply isoformat op j)) [
    | inl (m, e) ↦ perform-IsConsistent ops m k (apply-IsConsistent op j m c e) (rw e at h)
    | inr (x, e) ↦ absurd (ground arith)
  ]
