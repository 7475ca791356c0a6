-- ===== src/Ingestion/Job/Life/Tests.antt =====
-- Runs of an `IngestionJob`, and the theorems of this folder at them.
use fifa_world_cup_ai_agent.Prelude.{ℕ, ◌≡◌, refl, List, [], ◌∷◌, none, some, String, ok}
use fifa_world_cup_ai_agent.Ingestion.Job.{Job, transfermarkt_sync, queued, succeeded}
use fifa_world_cup_ai_agent.Ingestion.Job.Life.{Op, run, succeed, checkpoint, perform}
use fifa_world_cup_ai_agent.Ingestion.Job.Life.Invariant.{IsConsistent, perform-IsConsistent}
use fifa_world_cup_ai_agent.Ingestion.Job.Life.Order.{is_ok, is_life, perform-is_life}
use fifa_world_cup_ai_agent.Ingestion.Job.Life.History.{Keeps, perform-Keeps}

-- Times are numbers here, and each is printed alike.
abbrev print : ℕ → String
print t = "2026-09-20T00:00:00+00:00"

abbrev new_job : Job ℕ
new_job = record {
  id = some 7;
  job_type = transfermarkt_sync;
  status = queued;
  source_label = "transfermarkt";
  requested_by_user_id = 1;
  row_counts = [];
  error_message = none;
  current_stage = none;
  stage_checkpoints = [];
  created_at = some 1;
  started_at = none;
  finished_at = none;
}

abbrev sync : List (Op ℕ)
sync = run 2 ∷ checkpoint "clubs" 3 ∷ checkpoint "players" 4 ∷ succeed (("clubs", 5) ∷ []) 5 ∷ []

abbrev synced : Job ℕ
synced = record new_job {
  status = succeeded;
  row_counts = ("clubs", 5) ∷ [];
  current_stage = some "players";
  stage_checkpoints =
      record { stage = "clubs"; completed_at = print 3 }
      ∷ record { stage = "players"; completed_at = print 4 }
      ∷ [];
  started_at = some 2;
  finished_at = some 5;
}

perform-sync : perform print sync new_job ≡ ok synced
unfolding perform
perform-sync = refl

new_job-IsConsistent : IsConsistent new_job
new_job-IsConsistent = record { stamps = (refl, refl, refl, refl); current = refl }

perform-IsConsistent_example : IsConsistent synced
perform-IsConsistent_example =
    perform-IsConsistent print sync new_job synced new_job-IsConsistent perform-sync

perform-is_life_example : is_ok (perform print sync new_job) ≡ is_life sync
perform-is_life_example = perform-is_life print sync new_job refl

perform-Keeps_example : Keeps print new_job synced
perform-Keeps_example = perform-Keeps print sync new_job synced perform-sync
