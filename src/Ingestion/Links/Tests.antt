-- ===== src/Ingestion/Links/Tests.antt =====
-- A table of two links, three candidates, and the theorems of this folder at them.
use fifa_world_cup_ai_agent.Prelude.{
  ℕ, ◌+◌, ◌≡◌, true, false, some, none, List, [], ◌∷◌, All, arith,
}
use fifa_world_cup_ai_agent.Ingestion.Matching.{PlayerIdentityCandidate, exact_name_dob, fuzzy_name}
use fifa_world_cup_ai_agent.Ingestion.Links.{
  Link, LinkReviewStatus, pending, approved, dedupe_by_real_player_id, approval, rejection,
  reassignment, acts,
}
use fifa_world_cup_ai_agent.Ingestion.Links.Dedupe.{
  Any, Covers, IsDistinct, dedupe_by_real_player_id-IsDistinct,
}
use fifa_world_cup_ai_agent.Ingestion.Links.Review.{IsUnique, acts-IsUnique}

abbrev link : ℕ → LinkReviewStatus → Link
link n status = record {
  id = n;
  player_id = n + 10;
  real_player_id = n + 20;
  match_method = fuzzy_name;
  match_confidence = some 900;
  status = status;
  reviewed_by_user_id = none;
  reviewed_by_admin = false;
}

abbrev table : List Link
table = link 1 pending ∷ link 2 approved ∷ []

table-IsUnique : IsUnique table
table-IsUnique = (((omega arith, omega arith), tt), (tt, tt))

acts-IsUnique_example :
    IsUnique (acts (λ _. true) (approval 1 7 ∷ rejection 1 7 ∷ reassignment 2 30 7 ∷ []) table)
acts-IsUnique_example = acts-IsUnique (λ _. true) _ table table-IsUnique

abbrev candidates : List PlayerIdentityCandidate
candidates =
    record { player_id = 1; real_player_id = 9; match_method = fuzzy_name; match_confidence = 870 }
    ∷ record {
      player_id = 2;
      real_player_id = 9;
      match_method = exact_name_dob;
      match_confidence = 1000;
    }
    ∷ []

dedupe_by_real_player_id-IsDistinct_example :
    let kept = dedupe_by_real_player_id candidates in
    IsDistinct kept
    × All (λ (k : PlayerIdentityCandidate). Any (λ d. k ≡ d) candidates) kept
    × All (λ (c : PlayerIdentityCandidate). Any (Covers c) kept) candidates
dedupe_by_real_player_id-IsDistinct_example = dedupe_by_real_player_id-IsDistinct candidates
