-- ===== src/Ingestion/Job/Life/Order.antt =====
-- Which sequences of transitions an `IngestionJob` accepts.
use fifa_world_cup_ai_agent.Prelude.{
  String, ◌≡◌, refl, ◌⊎◌, inl, inr, Bool, true, false, some, List, [], ◌∷◌, ◌++◌, Result, ok, err,
  arith,
}
use fifa_world_cup_ai_agent.Ingestion.Job.{Job, queued, running, succeeded, failed}
use fifa_world_cup_ai_agent.Ingestion.Job.Life.{Op, run, succeed, checkpoint, fail, apply, perform}

-- The orders of operations that a queued job allows: fail at once, or run, record checkpoints, and
-- then succeed or fail or be still running.
abbrev pub is_work : {Time : Type 0} → List (Op Time) → Bool
is_work [] = true
is_work (checkpoint _ _ ∷ ops) = is_work ops
is_work (succeed _ _ ∷ []) = true
is_work (fail _ _ ∷ []) = true
is_work _ = false

abbrev pub is_life : {Time : Type 0} → List (Op Time) → Bool
is_life [] = true
is_life (fail _ _ ∷ []) = true
is_life (run _ ∷ ops) = is_work ops
is_life _ = false

abbrev pub is_nil : {A : Type 0} → List A → Bool
is_nil [] = true
is_nil (x ∷ xs) = false

abbrev pub is_ok : {E A : Type 0} → Result E A → Bool
is_ok (ok a) = true
is_ok (err e) = false

module _ {Time : Type 0} (isoformat : Time → String) where
  -- No operation is accepted after the end of a job.
  perform_ended :
      (ops : List (Op Time)) (j : Job Time)
      → (j.status ≡ succeeded) ⊎ (j.status ≡ failed)
      → is_ok (perform isoformat ops j) ≡ is_nil ops
  unfolding perform apply
  perform_ended [] j t = refl
  perform_ended (run now ∷ ops) j t = ground arith
  perform_ended (succeed counts now ∷ ops) j t = ground arith
  perform_ended (checkpoint stage now ∷ ops) j t = ground arith
  perform_ended (fail error now ∷ ops) j t = ground arith

  perform_running :
      (ops : List (Op Time)) (j : Job Time)
      → j.status ≡ running
      → is_ok (perform isoformat ops j) ≡ is_work ops
  unfolding perform apply
  perform_running [] j t = refl
  perform_running (run now ∷ ops) j t = ground arith
  perform_running (succeed counts now ∷ []) j t = ground arith
  perform_running (succeed counts now ∷ op ∷ ops) j t =
      let ended : Job Time = record j {
        status = succeeded;
        row_counts = counts;
        finished_at = some now;
      } in
      ground (arith, perform_ended (op ∷ ops) ended (inl refl))
  perform_running (checkpoint stage now ∷ ops) j t =
      let next : Job Time = record j {
        current_stage = some stage;
        stage_checkpoints =
            j.stage_checkpoints ++ record { stage = stage; completed_at = isoformat now } ∷ [];
      } in
      ground (arith, perform_running ops next t)
  perform_running (fail error now ∷ []) j t = ground arith
  perform_running (fail error now ∷ op ∷ ops) j t =
      let ended : Job Time = record j {
        status = failed;
        error_message = some error;
        finished_at = some now;
      } in
      ground (arith, perform_ended (op ∷ ops) ended (inr refl))

  -- A queued job accepts a sequence of transitions exactly when it is a life: a failure at once, or
  -- a run, then any checkpoints, then nothing more, a success or a failure as the last.
  pub perform-is_life :
      (ops : List (Op Time)) (j : Job Time)
      → j.status ≡ queued
      → is_ok (perform isoformat ops j) ≡ is_life ops
  unfolding perform apply
  perform-is_life [] j t = refl
  perform-is_life (run now ∷ ops) j t =
      let next : Job Time = record j { status = running; started_at = some now } in
      ground (arith, perform_running ops next refl)
  perform-is_life (succeed counts now ∷ ops) j t = ground arith
  perform-is_life (checkpoint stage now ∷ ops) j t = ground arith
  perform-is_life (fail error now ∷ []) j t = ground arith
  perform-is_life (fail error now ∷ op ∷ ops) j t =
      let ended : Job Time = record j {
        status = failed;
        error_message = some error;
        finished_at = some now;
      } in
      ground (arith, perform_ended (op ∷ ops) ended (inr refl))
