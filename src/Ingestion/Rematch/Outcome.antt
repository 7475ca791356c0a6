-- ===== src/Ingestion/Rematch/Outcome.antt =====
-- What a rematch ends with.
use fifa_world_cup_ai_agent.Prelude.{
  ℕ, String, ◌≡◌, ◌≢◌, ◌⊎◌, Result, none, List, [], ◌∷◌, All, length, ok, err,
}
use fifa_world_cup_ai_agent.Ingestion.Job.{Job, TransitionError, running, succeeded}
use fifa_world_cup_ai_agent.Ingestion.Links.{LinkValues}
use fifa_world_cup_ai_agent.Ingestion.Rematch.{Calls, Db}

-- No two rows have the same real player.
abbrev pub IsClean : List LinkValues → Type 0
IsClean [] = Unit
IsClean (x ∷ xs) = All (λ (y : LinkValues). x.real_player_id ≢ y.real_player_id) xs × IsClean xs

-- No row of the table has a reviewer.
abbrev pub IsUnreviewed : LinkValues → Type 0
IsUnreviewed l = l.reviewed_by_user_id ≡ none

-- A table that was made anew.
abbrev pub IsNew : List LinkValues → Type 0
IsNew links = IsClean links × All IsUnreviewed links

module _ {Time Raised : Type 0} (normalize_name : String → String) (ratio : String → String → ℕ)
    (refusal : TransitionError → Raised) (calls : Calls Time Raised) (db : Db Time) where
  -- How a rematch ends: the job has succeeded and the table is new; or it raised, and nothing has
  -- changed, or the job is running and the table is the old one, empty, or new.
  abbrev pub Rematched : Result Raised (Job Time) × Db Time → Type 0
  Rematched (ok done, after) =
      (done.status ≡ succeeded)
      × (after.job ≡ done)
      × IsNew after.links
      × (done.row_counts ≡ ("player_identity_link", length after.links) ∷ [])
  Rematched (err x, after) =
      (after ≡ db)
      ⊎ ((after.job.status ≡ running)
          × ((after.links ≡ db.links) ⊎ ((after.links ≡ []) ⊎ IsNew after.links)))

  abbrev Holds : {A : Type 0} → (A → Db Time → Type 0) → Result Raised A × Db Time → Type 0
  Holds Q (ok a, after) = Q a after
  Holds Q (err x, after) = Rematched (err x, after)

  -- The job is running, and the table is wiped.
  abbrev Wiped : Db Time → Type 0
  Wiped after = (after.job.status ≡ running) × (after.links ≡ [])

  -- What holds after each step of the rematch.
  abbrev IsMarked : Job Time → Db Time → Type 0
  IsMarked r after = (r.status ≡ running) × (after ≡ db)

  abbrev IsRunning : Job Time → Db Time → Type 0
  IsRunning r after = (r.status ≡ running) × (after.job.status ≡ running) × (after.links ≡ db.links)

  abbrev IsInserted : List LinkValues → Db Time → Type 0
  IsInserted rows after = (after.job.status ≡ running) × (after.links ≡ rows) × IsNew rows

  abbrev IsDone : List LinkValues → Job Time → Db Time → Type 0
  IsDone rows r after =
      (r.status ≡ succeeded)
      × (r.row_counts ≡ ("player_identity_link", length rows) ∷ [])
      × IsInserted rows after
