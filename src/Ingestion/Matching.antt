-- ===== src/Ingestion/Matching.antt =====
-- The match of a roster player to a real one:
-- backend/src/domain/ingestion/services/player_identity_matching_service.py, with the shapes of
-- backend/src/domain/ingestion/model/player_identity_candidate.py.
--
-- A confidence is counted in thousandths. A similarity score is counted in units, `unit` to the
-- point, and its scaling is exact up to the last rounding, to a thousandth, half to even. The
-- normalization of a name and the similarity of two names are parameters.
pub mod Ranked
pub mod Choice
pub mod Bounds
mod Tests
use fifa_world_cup_ai_agent.Prelude.{
  ℕ, suc, ◌+◌, ◌-◌, ◌*◌, ◌/◌, String, ◌<>◌, Bool, true, false, ◌&&◌, ◌||◌, not, Option, none, some,
  List, [], ◌∷◌, if◌then◌else◌, is_some, opt_eq, str_eq, ltb, leb, ◌==◌,
}

pub data PlayerMatchMethod : Type 0 where
  exact_name_dob exact_name_team fuzzy_name manual : PlayerMatchMethod

pub record PlayerIdentityCandidate : Type 0 where
  pub player_id : ℕ
  pub real_player_id : ℕ
  pub match_method : PlayerMatchMethod
  pub match_confidence : ℕ

-- What the match reads of a roster player, with dates as day numbers.
pub record Player : Type 0 where
  pub id : ℕ
  pub team_id : ℕ
  pub name : String
  pub date_of_birth : ℕ
  pub height_cm : ℕ

-- What it reads of the dictionary of a real player; an absent key is `none`, as with `.get`.
pub record RealCandidate : Type 0 where
  pub player_id : ℕ
  pub first_name : String
  pub last_name : String
  pub date_of_birth : Option ℕ
  pub height_in_cm : Option ℕ
  pub current_national_team_id : Option ℕ

-- The units of a point: a double from 64 to 128 is a multiple of one 2^46th.
abbrev pub unit : ℕ
unit = 70368744177664

abbrev pub fuzzy_floor_score : ℕ
fuzzy_floor_score = 85 * unit

abbrev pub full_score : ℕ
full_score = 100 * unit

abbrev pub auto_accept_confidence : ℕ
auto_accept_confidence = 950

abbrev pub smaller : ℕ → ℕ → ℕ
smaller a b = if ltb b a then b else a

-- A number of 15 * `unit`ths of a thousandth, rounded half to even.
unfoldable pub quantize : ℕ → ℕ
quantize n =
    let q = n / (15 * unit) in
    let r = n - q * (15 * unit) in
    if ltb (15 * unit) (2 * r) || (2 * r == 15 * unit && (q - 2 * (q / 2)) == 1) then suc q else q

unfoldable pub scale_fuzzy_confidence : ℕ → ℕ
unfolding quantize
scale_fuzzy_confidence score = quantize (
    smaller (850 * (15 * unit) + (smaller score full_score - fuzzy_floor_score) * 99)
      (949 * (15 * unit)))

unfoldable pub corroborated : Player → RealCandidate → Bool
corroborated player real =
    opt_eq real.date_of_birth (some player.date_of_birth)
    && opt_eq real.height_in_cm (some player.height_cm)

abbrev pub candidate : Player → RealCandidate → PlayerMatchMethod → ℕ → PlayerIdentityCandidate
candidate player real method confidence = record {
  player_id = player.id;
  real_player_id = real.player_id;
  match_method = method;
  match_confidence = confidence;
}

-- `(corroborated, score)`, and `>` of two of them.
abbrev pub Rank : Type 0
Rank = Bool × ℕ

abbrev pub outranks : Rank → Rank → Bool
outranks (true, s) (true, t) = ltb t s
outranks (true, s) (false, t) = true
outranks (false, s) (true, t) = false
outranks (false, s) (false, t) = ltb t s

module _ (normalize_name : String → String) (ratio : String → String → ℕ)
    (national_team_id_by_team_id : ℕ → Option ℕ) where
  abbrev pub same_name : Player → RealCandidate → Bool
  same_name player real =
      str_eq (normalize_name player.name)
        (normalize_name (real.first_name <> " " <> real.last_name))

  abbrev pub same_team : Player → RealCandidate → Bool
  same_team player real =
      is_some (national_team_id_by_team_id player.team_id)
      && opt_eq (national_team_id_by_team_id player.team_id) real.current_national_team_id

  -- The two early returns of the loop.
  unfoldable pub exact_match : Player → RealCandidate → Option PlayerIdentityCandidate
  exact_match player real =
      if same_name player real && opt_eq real.date_of_birth (some player.date_of_birth)
      then some (candidate player real exact_name_dob 1000)
      else if same_name player real && same_team player real
      then some (candidate player real exact_name_team auto_accept_confidence)
      else none

  unfoldable pub score_of : Player → RealCandidate → ℕ
  score_of player real =
      if same_name player real
      then full_score
      else ratio (normalize_name player.name)
          (normalize_name (real.first_name <> " " <> real.last_name))

  unfoldable pub rank_of : Player → RealCandidate → Rank
  unfolding corroborated score_of
  rank_of player real = (corroborated player real, score_of player real)

  abbrev pub replaces : Option (RealCandidate × Rank) → Rank → Bool
  replaces none r = true
  replaces (some (_, best)) r = outranks r best

  -- What the loop does with a real player that is no exact match.
  unfoldable pub consider :
      Player → Option (RealCandidate × Rank) → RealCandidate → Option (RealCandidate × Rank)
  unfolding rank_of
  consider player best real =
      if ltb (score_of player real) fuzzy_floor_score
      then best
      else if replaces best (rank_of player real)
      then some (real, rank_of player real)
      else best

  unfoldable pub fuzzy_candidate : Player → RealCandidate → Rank → PlayerIdentityCandidate
  unfolding scale_fuzzy_confidence
  fuzzy_candidate player real (sure, score) =
      candidate player real fuzzy_name
        (if sure then auto_accept_confidence else scale_fuzzy_confidence score)

  abbrev pub best_candidate :
      Player → Option (RealCandidate × Rank) → Option PlayerIdentityCandidate
  best_candidate player none = none
  best_candidate player (some (real, rank)) = some (fuzzy_candidate player real rank)

  abbrev pub found_or :
      Option PlayerIdentityCandidate
      → Option PlayerIdentityCandidate
      → Option PlayerIdentityCandidate
  found_or rest none = rest
  found_or rest (some found) = some found

  -- The loop over the real players, and what follows it.
  unfoldable pub search_from :
      Player → Option (RealCandidate × Rank) → List RealCandidate → Option PlayerIdentityCandidate
  search_from player best [] = best_candidate player best
  search_from player best (real ∷ reals) =
      found_or (search_from player (consider player best real) reals) (exact_match player real)

  unfoldable pub match_one : Player → List RealCandidate → Option PlayerIdentityCandidate
  unfolding search_from
  match_one player reals = search_from player none reals

  abbrev pub add_match :
      Option PlayerIdentityCandidate → List PlayerIdentityCandidate → List PlayerIdentityCandidate
  add_match none found = found
  add_match (some c) found = c ∷ found

  unfoldable pub match_all : List Player → List RealCandidate → List PlayerIdentityCandidate
  unfolding match_one
  match_all [] reals = []
  match_all (player ∷ players) reals = add_match (match_one player reals) (match_all players reals)
