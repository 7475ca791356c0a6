-- ===== src/Ingestion/Links.antt =====
-- The links of roster players to real ones, and their review:
-- backend/src/infra/postgres/repositories/player_identity_link_repository.py and
-- backend/src/domain/ingestion/services/identity_link_review_service.py, on the shapes of
-- backend/src/domain/ingestion/model/player_identity_link.py. The table is a list of rows; whether
-- a real player exists is a parameter.
pub mod Dedupe
pub mod Review
mod Tests
use fifa_world_cup_ai_agent.Prelude.{
  ℕ, Bool, true, false, not, ◌&&◌, Option, none, some, is_some, List, [], ◌∷◌, Result, ok, err,
  ◌>>=◌, if◌then◌else◌, ltb, leb, ◌==◌,
}
use fifa_world_cup_ai_agent.Ingestion.Matching.{
  PlayerMatchMethod, manual, PlayerIdentityCandidate, auto_accept_confidence,
}

pub data LinkReviewStatus : Type 0 where
  pending approved rejected : LinkReviewStatus

-- A row of the table; the time of its creation is left out.
pub record Link : Type 0 where
  pub id : ℕ
  pub player_id : ℕ
  pub real_player_id : ℕ
  pub match_method : PlayerMatchMethod
  pub match_confidence : Option ℕ
  pub status : LinkReviewStatus
  pub reviewed_by_user_id : Option ℕ
  pub reviewed_by_admin : Bool

pub data LinkError : Type 0 where
  link_not_found real_player_not_found real_player_already_linked : LinkError
  already_reviewed : LinkReviewStatus → LinkError

-- One turn of the loop of `_dedupe_by_real_player_id`: a dictionary in the order of its keys'
-- first assignment. No confidence is below 0, so that `or Decimal("-1")` changes no comparison.
unfoldable pub keep_best :
    PlayerIdentityCandidate → List PlayerIdentityCandidate → List PlayerIdentityCandidate
keep_best c [] = c ∷ []
keep_best c (b ∷ bs) =
    let rest = keep_best c bs in
    if b.real_player_id == c.real_player_id
    then (if ltb b.match_confidence c.match_confidence then c else b) ∷ bs
    else b ∷ rest

unfoldable pub dedupe_from :
    List PlayerIdentityCandidate → List PlayerIdentityCandidate → List PlayerIdentityCandidate
unfolding keep_best
dedupe_from best [] = best
dedupe_from best (c ∷ cs) = dedupe_from (keep_best c best) cs

unfoldable pub dedupe_by_real_player_id :
    List PlayerIdentityCandidate → List PlayerIdentityCandidate
unfolding dedupe_from
dedupe_by_real_player_id candidates = dedupe_from [] candidates

-- The columns that `upsert_candidates` writes.
pub record LinkValues : Type 0 where
  pub player_id : ℕ
  pub real_player_id : ℕ
  pub match_method : PlayerMatchMethod
  pub match_confidence : ℕ
  pub status : LinkReviewStatus
  pub reviewed_by_user_id : Option ℕ

abbrev pub link_values : PlayerIdentityCandidate → LinkValues
link_values c = record {
  player_id = c.player_id;
  real_player_id = c.real_player_id;
  match_method = c.match_method;
  match_confidence = c.match_confidence;
  status = if leb auto_accept_confidence c.match_confidence then approved else pending;
  reviewed_by_user_id = none;
}

abbrev pub values_of : List PlayerIdentityCandidate → List LinkValues
values_of [] = []
values_of (c ∷ cs) = link_values c ∷ values_of cs

-- The rows that `upsert_candidates` hands to the generic upsert.
unfoldable pub upsert_rows : List PlayerIdentityCandidate → List LinkValues
unfolding dedupe_by_real_player_id
upsert_rows candidates = values_of (dedupe_by_real_player_id candidates)

unfoldable pub find : ℕ → List Link → Option Link
find id [] = none
find id (l ∷ ls) = if l.id == id then some l else find id ls

-- A row takes the place of the row with its id.
unfoldable pub store : Link → List Link → List Link
store new [] = []
store new (l ∷ ls) = let rest = store new ls in if l.id == new.id then new ∷ ls else l ∷ rest

abbrev pub found : Option Link → Result LinkError Link
found none = err link_not_found
found (some l) = ok l

unfoldable pub update_status :
    ℕ → LinkReviewStatus → Option ℕ → List Link → Result LinkError (Link × List Link)
unfolding find store
update_status id status user ls = do
  l ← found (find id ls)
  let new = record l {
    status = status;
    reviewed_by_user_id = user;
    reviewed_by_admin = is_some user;
  } in
      ok (new, store new ls)

-- Another link has the real player.
abbrev pub is_taken : ℕ → ℕ → List Link → Bool
is_taken real id [] = false
is_taken real id (l ∷ ls) =
    if l.real_player_id == real && not (l.id == id) then true else is_taken real id ls

abbrev pub reassigned : ℕ → ℕ → Link → Link
reassigned real admin l = record l {
  real_player_id = real;
  match_method = manual;
  match_confidence = none;
  status = approved;
  reviewed_by_user_id = some admin;
  reviewed_by_admin = true;
}

unfoldable pub reassign : (ℕ → Bool) → ℕ → ℕ → ℕ → List Link → Result LinkError (Link × List Link)
unfolding find store
reassign real_player_exists id real admin ls = do
  l ← found (find id ls)
  let new = reassigned real admin l in
      if not (real_player_exists real)
      then err real_player_not_found
      else if is_taken real id ls
      then err real_player_already_linked
      else ok (new, store new ls)

-- `_require_pending`
abbrev pub pending_only : Link → LinkReviewStatus → Result LinkError Link
pending_only l pending = ok l
pending_only l status = err (already_reviewed status)

unfoldable pub require_pending : ℕ → List Link → Result LinkError Link
unfolding find
require_pending id ls = found (find id ls) >>= (λ l. pending_only l l.status)

unfoldable pub approve : ℕ → ℕ → List Link → Result LinkError (Link × List Link)
unfolding require_pending update_status
approve id admin ls = require_pending id ls >>= (λ _. update_status id approved (some admin) ls)

unfoldable pub reject : ℕ → ℕ → List Link → Result LinkError (Link × List Link)
unfolding require_pending update_status
reject id admin ls = require_pending id ls >>= (λ _. update_status id rejected (some admin) ls)

-- What an administrator may ask for, one request after another; a request that raises leaves the
-- table as it is.
pub data Act : Type 0 where
  approval rejection : ℕ → ℕ → Act
  reassignment : ℕ → ℕ → ℕ → Act

unfoldable pub act : (ℕ → Bool) → Act → List Link → Result LinkError (Link × List Link)
unfolding approve reject reassign
act exists (approval id admin) ls = approve id admin ls
act exists (rejection id admin) ls = reject id admin ls
act exists (reassignment id real admin) ls = reassign exists id real admin ls

abbrev pub table_after : List Link → Result LinkError (Link × List Link) → List Link
table_after ls (ok (l, new)) = new
table_after ls (err e) = ls

unfoldable pub acts : (ℕ → Bool) → List Act → List Link → List Link
unfolding act
acts exists [] ls = ls
acts exists (a ∷ rest) ls = acts exists rest (table_after ls (act exists a ls))
