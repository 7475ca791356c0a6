-- ===== src/Ingestion/Matching/Ranked.antt =====
-- The loop of the match against its own order of the real players.
use fifa_world_cup_ai_agent.Prelude.{
  ℕ, String, ◌≡◌, refl, sym, subst, ap, ◌∙◌, Bool, true, false, not, ◌||◌, Bool-cases, Option, none,
  some, List, [], ◌∷◌, ◌++◌, append_assoc, append-nil, All, All-append, ltb, ◌⊎◌, inl, inr, arith,
}
use fifa_world_cup_ai_agent.Ingestion.Matching.{
  Player, RealCandidate, PlayerIdentityCandidate, Rank, outranks, fuzzy_floor_score, exact_match,
  score_of, rank_of, consider, fuzzy_candidate, found_or, search_from, match_one,
}

outranks_trans : (p q r : Rank) → outranks p q ≡ true → outranks q r ≡ true → outranks p r ≡ true
outranks_trans (true, a) (true, b) (true, c) h k = ground arith
outranks_trans (true, a) (true, b) (false, c) h k = refl
outranks_trans (true, a) (false, b) (false, c) h k = refl
outranks_trans (true, a) (false, b) (true, c) h k = cc
outranks_trans (false, a) (true, b) r h k = cc
outranks_trans (false, a) (false, b) (true, c) h k = cc
outranks_trans (false, a) (false, b) (false, c) h k = ground arith

outranks_mix : (p q r : Rank) → outranks p q ≡ true → outranks r q ≡ false → outranks p r ≡ true
outranks_mix (true, a) (true, b) (true, c) h k = ground arith
outranks_mix (true, a) (true, b) (false, c) h k = refl
outranks_mix (true, a) (false, b) (false, c) h k = refl
outranks_mix (true, a) (false, b) (true, c) h k = cc
outranks_mix (false, a) (true, b) r h k = cc
outranks_mix (false, a) (false, b) (true, c) h k = cc
outranks_mix (false, a) (false, b) (false, c) h k = ground arith

module _ (normalize_name : String → String) (ratio : String → String → ℕ)
    (national_team_id_by_team_id : ℕ → Option ℕ) (player : Player) where
  abbrev pub exact : RealCandidate → Option PlayerIdentityCandidate
  exact = exact_match normalize_name ratio national_team_id_by_team_id player

  abbrev pub rank : RealCandidate → Rank
  rank = rank_of normalize_name ratio national_team_id_by_team_id player

  abbrev pub below : RealCandidate → Bool
  below x =
      ltb (score_of normalize_name ratio national_team_id_by_team_id player x) fuzzy_floor_score

  abbrev step : Option (RealCandidate × Rank) → RealCandidate → Option (RealCandidate × Rank)
  step = consider normalize_name ratio national_team_id_by_team_id player

  -- `x` comes before the choice of `r`, or after it.
  abbrev pub IsWorse : RealCandidate → RealCandidate → Type 0
  IsWorse r x = (below x || outranks (rank r) (rank x)) ≡ true

  abbrev pub IsNoBetter : RealCandidate → RealCandidate → Type 0
  IsNoBetter r x = (below x || not (outranks (rank x) (rank r))) ≡ true

  -- `r` is the first of the best of the list: not below the floor, above all before it and not
  -- under any after it, those below the floor left aside.
  pub record IsFirst (reals : List RealCandidate) (r : RealCandidate) : Type 0 where
    pub before : List RealCandidate
    pub after : List RealCandidate
    pub split : reals ≡ before ++ r ∷ after
    pub eligible : below r ≡ false
    pub worse : All (IsWorse r) before
    pub no_better : All (IsNoBetter r) after

  abbrev pub IsBelow : RealCandidate → Type 0
  IsBelow x = below x ≡ true

  -- What the loop has chosen among the real players that it has seen.
  abbrev Chosen : List RealCandidate → Option (RealCandidate × Rank) → Type 0
  Chosen seen none = All IsBelow seen
  Chosen seen (some (r, k)) = (k ≡ rank r) × IsFirst seen r

  pub All-map :
      (P Q : RealCandidate → Type 0)
      → ((x : RealCandidate) → P x → Q x)
      → (xs : List RealCandidate) → All P xs
      → All Q xs
  All-map P Q f [] h = tt
  All-map P Q f (x ∷ xs) h = (f x h.0, All-map P Q f xs h.1)

  IsWorse-trans :
      (r b x : RealCandidate) → outranks (rank r) (rank b) ≡ true → IsWorse b x → IsWorse r x
  IsWorse-trans r b x h k = elim (Bool-cases (below x)) [
    | inl e ↦ rw e refl
    | inr e ↦
        let l : outranks (rank b) (rank x) ≡ true = ground (arith, e) in
        rw (e, outranks_trans (rank r) (rank b) (rank x) h l) refl
  ]

  IsWorse-mix :
      (r b x : RealCandidate) → outranks (rank r) (rank b) ≡ true → IsNoBetter b x → IsWorse r x
  IsWorse-mix r b x h k = elim (Bool-cases (below x)) [
    | inl e ↦ rw e refl
    | inr e ↦
        let l : outranks (rank x) (rank b) ≡ false = ground (arith, e) in
        rw (e, outranks_mix (rank r) (rank b) (rank x) h l) refl
  ]

  consider-Chosen :
      (seen : List RealCandidate) (best : Option (RealCandidate × Rank)) (r : RealCandidate)
      → Chosen seen best
      → Chosen (seen ++ r ∷ []) (step best r)
  unfolding consider
  consider-Chosen seen none r h = elim (Bool-cases (below r)) [
    | inl e ↦ rw e (All-append IsBelow seen (r ∷ []) h (e, tt))
    | inr e ↦ rw e (
      refl,
      record {
        before = seen;
        after = [];
        split = refl;
        eligible = e;
        worse = All-map IsBelow (IsWorse r) (λ x b. rw b refl) seen h;
        no_better = tt;
      },
    )
  ]
  consider-Chosen seen (some (b, k)) r (p, h) = elim (Bool-cases (below r)) [
    | inl e ↦ rw e (p, extend (rw e refl))
    | inr e ↦ elim (Bool-cases (outranks (rank r) k)) [
      | inl o ↦ rw (e, o) (refl, replace e (subst (λ l. outranks (rank r) l ≡ true) p o))
      | inr o ↦ rw (e, o) (p, extend (rw (e, subst (λ l. outranks (rank r) l ≡ false) p o) refl))
    ]
  ]
    where
      extend : IsNoBetter b r → IsFirst (seen ++ r ∷ []) b
      extend n = record {
        before = h.before;
        after = h.after ++ r ∷ [];
        split = ap (λ l. l ++ r ∷ []) h.split ∙ append_assoc h.before (b ∷ h.after) (r ∷ []);
        eligible = h.eligible;
        worse = h.worse;
        no_better = All-append (IsNoBetter b) h.after (r ∷ []) h.no_better (n, tt);
      }

      replace : below r ≡ false → outranks (rank r) (rank b) ≡ true → IsFirst (seen ++ r ∷ []) r
      replace e o = record {
        before = seen;
        after = [];
        split = refl;
        eligible = e;
        worse = subst (All (IsWorse r)) (sym h.split) (
            All-append (IsWorse r) h.before (b ∷ h.after)
              (All-map (IsWorse b) (IsWorse r) (λ x. IsWorse-trans r b x o) h.before h.worse)
              (
                ground (arith, o),
                All-map (IsNoBetter b) (IsWorse r) (λ x. IsWorse-mix r b x o) h.after h.no_better,
              ));
        no_better = tt;
      }

  -- The answer is the first exact match, or no real player matches exactly and it is the best fuzzy
  -- one, or there is none and all are below the floor.
  abbrev pub Ranked : List RealCandidate → Option PlayerIdentityCandidate → Type 0
  Ranked reals answer =
      ((before : List RealCandidate) × (r : RealCandidate) × (after : List RealCandidate) × (reals
          ≡ before ++ r ∷ after)
        × All (λ (x : RealCandidate). exact x ≡ none) before
        × (found : PlayerIdentityCandidate) × (exact r ≡ some found)
        × (answer ≡ some found))
      ⊎ (All (λ (x : RealCandidate). exact x ≡ none) reals
          × (((r : RealCandidate) × IsFirst reals r
                × (answer
                    ≡ some (
                        fuzzy_candidate normalize_name ratio national_team_id_by_team_id player r
                          (rank r))))
              ⊎ (All IsBelow reals × (answer ≡ none))))

  search-Ranked :
      (seen : List RealCandidate) (best : Option (RealCandidate × Rank))
      (reals : List RealCandidate)
      → All (λ (x : RealCandidate). exact x ≡ none) seen
      → Chosen seen best
      → Ranked
          (seen ++ reals)
          (search_from normalize_name ratio national_team_id_by_team_id player best reals)
  unfolding search_from
  search-Ranked seen none [] u h = rw (append-nil seen) (inr (u, inr (h, refl)))
  search-Ranked seen (some (r, k)) [] u (p, h) =
      rw (append-nil seen) (inr (u, inl (r, h, rw p refl)))
  search-Ranked seen best (r ∷ reals) u h = go (exact r) refl (λ e.
      search-Ranked (seen ++ r ∷ []) (step best r) reals
        (All-append (λ (x : RealCandidate). exact x ≡ none) seen (r ∷ []) u (e, tt))
        (consider-Chosen seen best r h))
    where
      rest : Option PlayerIdentityCandidate
      rest = search_from normalize_name ratio national_team_id_by_team_id player (step best r) reals

      go :
          (o : Option PlayerIdentityCandidate)
          → exact r ≡ o
          → (exact r ≡ none → Ranked ((seen ++ r ∷ []) ++ reals) rest)
          → Ranked
              (seen ++ r ∷ reals)
              (found_or normalize_name ratio national_team_id_by_team_id rest o)
      go none e next = subst (λ l. Ranked l rest) (append_assoc seen (r ∷ []) reals) (next e)
      go (some found) e next = inl (seen, r, reals, refl, u, found, e, refl)

  pub match_one-Ranked :
      (reals : List RealCandidate)
      → Ranked reals (match_one normalize_name ratio national_team_id_by_team_id player reals)
  unfolding match_one
  match_one-Ranked reals = search-Ranked [] none reals tt tt
