-- ===== src/Ingestion/Rematch/Tests.antt =====
-- A queued rematch of one player, and the theorem of this folder at it.
use fifa_world_cup_ai_agent.Prelude.{
  ℕ, String, ◌≡◌, refl, Option, some, none, List, [], ◌∷◌, ok, ◌*◌,
}
use fifa_world_cup_ai_agent.Ingestion.Job.{
  Job, TransitionError, identity_link_rematch, queued, mark_running,
}
use fifa_world_cup_ai_agent.Ingestion.Matching.{Player, RealCandidate, manual, unit}
use fifa_world_cup_ai_agent.Ingestion.Links.{LinkValues, approved}
use fifa_world_cup_ai_agent.Ingestion.Rematch.{Calls, Db, rematch}

abbrev same : String → String
same s = s

abbrev ninety : String → String → ℕ
ninety a b = 90 * unit

abbrev players : List Player
players =
    record { id = 1; team_id = 7; name = "Ana Luz"; date_of_birth = 100; height_cm = 170 } ∷ []

abbrev reals : List RealCandidate
reals =
    record {
      player_id = 9;
      first_name = "Ana";
      last_name = "Luze";
      date_of_birth = some 100;
      height_in_cm = some 170;
      current_national_team_id = none;
    }
    ∷ []

abbrev job : Job ℕ
job = record {
  id = some 3;
  job_type = identity_link_rematch;
  status = queued;
  source_label = "rematch";
  requested_by_user_id = 1;
  row_counts = [];
  error_message = none;
  current_stage = none;
  stage_checkpoints = [];
  created_at = some 10;
  started_at = none;
  finished_at = none;
}

abbrev stale : LinkValues
stale = record {
  player_id = 1;
  real_player_id = 8;
  match_method = manual;
  match_confidence = 1000;
  status = approved;
  reviewed_by_user_id = some 5;
}

abbrev before : Db ℕ
before = record { job = job; links = stale ∷ [] }

abbrev refusal : TransitionError → String
refusal x = "refused"

abbrev calls : Option String → Calls ℕ String
calls upsert = record {
  update = λ j. none;
  delete_all = none;
  players = ok players;
  match_candidates = ok reals;
  teams = ok ((7, none) ∷ []);
  upsert = upsert;
}

-- An upsert that fails leaves the table empty: the wipe has committed.
wiped : (rematch same ninety refusal (calls (some "down")) 11 12 job before).1.links ≡ []
unfolding rematch mark_running
wiped = refl
