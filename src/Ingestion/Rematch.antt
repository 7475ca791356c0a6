-- ===== src/Ingestion/Rematch.antt =====
-- The clean rematch of all players: `rematch` of
-- backend/src/domain/ingestion/services/identity_link_rematch_service.py. The rows that the
-- repositories return or raise are arguments. Every write commits on its own, and the upsert merges
-- its rows into the table of links, which is wiped first.
pub mod Outcome
mod Tests
use fifa_world_cup_ai_agent.Prelude.{
  ℕ, String, Bool, false, ◌||◌, ◌++◌, Option, none, some, List, [], ◌∷◌, length, Result, ok, err,
  if◌then◌else◌, ◌==◌,
}
use fifa_world_cup_ai_agent.Ingestion.Job.{Job, TransitionError, mark_running, mark_succeeded}
use fifa_world_cup_ai_agent.Ingestion.Matching.{Player, RealCandidate, match_all}
use fifa_world_cup_ai_agent.Ingestion.Links.{LinkValues, upsert_rows}

-- A later row of the same team wins, as in the dictionary that is built of the rows.
abbrev pub or_last : ℕ → ℕ → ℕ → Option ℕ → Option ℕ
or_last team transfermarkt t none = if team == t then some transfermarkt else none
or_last team transfermarkt t (some later) = some later

-- `_resolve_national_team_ids`, as the lookup in its dictionary.
unfoldable pub resolve_national_team_ids : List (ℕ × Option ℕ) → ℕ → Option ℕ
resolve_national_team_ids [] t = none
resolve_national_team_ids ((team, none) ∷ rows) t = resolve_national_team_ids rows t
resolve_national_team_ids ((team, some transfermarkt) ∷ rows) t =
    or_last team transfermarkt t (resolve_national_team_ids rows t)

-- The rows of other players, which an upsert leaves as they are.
abbrev pub has_player : ℕ → List LinkValues → Bool
has_player p [] = false
has_player p (row ∷ rows) = row.player_id == p || has_player p rows

abbrev pub untouched : List LinkValues → List LinkValues → List LinkValues
untouched rows [] = []
untouched rows (link ∷ links) =
    let rest = untouched rows links in if has_player link.player_id rows then rest else link ∷ rest

-- What the calls of the repositories come to: the raise of a write, or what a read returns.
pub record Calls (Time Raised : Type 0) : Type 0 where
  pub update : Job Time → Option Raised
  pub delete_all : Option Raised
  pub players : Result Raised (List Player)
  pub match_candidates : Result Raised (List RealCandidate)
  pub teams : Result Raised (List (ℕ × Option ℕ))
  pub upsert : Option Raised

-- The committed rows.
pub record Db (Time : Type 0) : Type 0 where
  pub job : Job Time
  pub links : List LinkValues

module _ {Time Raised : Type 0} (normalize_name : String → String) (ratio : String → String → ℕ)
    (refusal : TransitionError → Raised) (calls : Calls Time Raised) where
  open calls use {update, delete_all, players, match_candidates, teams, upsert}

  abbrev pub Run : Type 0 → Type 0
  Run A = Db Time → Result Raised A × Db Time

  abbrev pub continue :
      {A B : Type 0} → (A → Run B) → Result Raised A × Db Time → Result Raised B × Db Time
  continue f (ok a, db) = f a db
  continue f (err x, db) = (err x, db)

  infixl 5 ◌>>=◌
  abbrev pub ◌>>=◌ : {A B : Type 0} → Run A → (A → Run B) → Run B
  (m >>= f) db = continue f (m db)

  abbrev pub lift : {A : Type 0} → Result Raised A → Run A
  lift r db = (r, db)

  abbrev pub transition : Result TransitionError (Job Time) → Result Raised (Job Time)
  transition (ok job) = ok job
  transition (err x) = err (refusal x)

  -- A write that commits on its own, or raises and leaves the database as it was.
  abbrev pub write : {A : Type 0} → Option Raised → A → (Db Time → Db Time) → Run A
  write none a change db = (ok a, change db)
  write (some x) a change db = (err x, db)

  abbrev pub persist : Job Time → Run (Job Time)
  persist job = write (update job) job (λ db. record db { job = job })

  -- `upsert_candidates`, of one row for a player: the rows that are written, as its result.
  abbrev pub insert_rows : List LinkValues → Run (List LinkValues)
  insert_rows rows = write upsert rows (λ db. record db { links = rows ++ untouched rows db.links })

  -- The match, and what follows it.
  abbrev pub rest :
      Time → List Player → List RealCandidate → List (ℕ × Option ℕ) → Job Time → Run (Job Time)
  rest finished synthetic_players real_player_candidates national_teams running_job =
      let candidates =
        match_all normalize_name ratio (resolve_national_team_ids national_teams) synthetic_players
          real_player_candidates in
      insert_rows (upsert_rows candidates) >>= (λ rows.
        lift (
          transition
            (mark_succeeded (("player_identity_link", length rows) ∷ []) finished running_job))
        >>= (λ succeeded_job. persist succeeded_job))

  unfoldable pub rematch : Time → Time → Job Time → Run (Job Time)
  rematch started finished job = do
    running_job ← lift (transition (mark_running started job))
    running_job ← persist running_job
    wiped ← write delete_all tt (λ db. record db { links = [] })
    synthetic_players ← lift players
    real_player_candidates ← lift match_candidates
    national_teams ← lift teams
    rest finished synthetic_players real_player_candidates national_teams running_job
