-- ===== src/Ingestion/Matching/Choice.antt =====
-- Which real player a roster player is matched to: the first exact match, or the best fuzzy one.
use fifa_world_cup_ai_agent.Prelude.{
  ℕ, ◌==◌, String, ◌<>◌, ◌≡◌, refl, sym, subst, ap, ◌∙◌, ◌<◌, Bool, true, false, ◌&&◌, Bool-cases,
  Option, none, some, List, ◌∷◌, ◌++◌, All, ltb, ◌⊎◌, inl, inr, arith, str_eq, str_eq_iff, opt_eq,
  is_some, ◌*◌,
}
use fifa_world_cup_ai_agent.Ingestion.Matching.{
  Player, RealCandidate, PlayerIdentityCandidate, PlayerMatchMethod, exact_name_dob,
  exact_name_team, fuzzy_name, unit, outranks, exact_match, score_of, rank_of, corroborated,
  fuzzy_candidate, scale_fuzzy_confidence, same_name, same_team, match_one,
}
use fifa_world_cup_ai_agent.Ingestion.Matching.Ranked.{
  below, rank, exact, IsWorse, IsNoBetter, IsFirst, Ranked, match_one-Ranked, All-map,
}

opt_eq-some : (o : Option ℕ) (n : ℕ) → opt_eq o (some n) ≡ true → o ≡ some n
opt_eq-some none n h = cc
opt_eq-some (some m) n h = ground arith

opt_eq_refl : (o : Option ℕ) (n : ℕ) → o ≡ some n → opt_eq o (some n) ≡ true
opt_eq_refl none n h = cc
opt_eq_refl (some m) n h = ground arith

both_known :
    (o p : Option ℕ) → (is_some o && opt_eq o p) ≡ true → (t : ℕ) × (o ≡ some t) × (p ≡ some t)
both_known none p h = cc
both_known (some a) none h = cc
both_known (some a) (some b) h =
    (a, refl, ap some (let e : (a == b) ≡ true = h in ground (arith, e)))

known_both : (o p : Option ℕ) (t : ℕ) → o ≡ some t → p ≡ some t → (is_some o && opt_eq o p) ≡ true
known_both none p t h k = cc
known_both (some a) none t h k = cc
known_both (some a) (some b) t h k = ground arith

module _ (normalize_name : String → String) (ratio : String → String → ℕ)
    (national_team_id_by_team_id : ℕ → Option ℕ) (player : Player) where
  abbrev pub full_name : RealCandidate → String
  full_name x = normalize_name (x.first_name <> " " <> x.last_name)

  abbrev pub SameName : RealCandidate → Type 0
  SameName x = normalize_name player.name ≡ full_name x

  abbrev pub SameBirth : RealCandidate → Type 0
  SameBirth x = x.date_of_birth ≡ some player.date_of_birth

  abbrev pub SameHeight : RealCandidate → Type 0
  SameHeight x = x.height_in_cm ≡ some player.height_cm

  -- Both play for one national team, and it is known.
  abbrev pub SameTeam : RealCandidate → Type 0
  SameTeam x =
      (t : ℕ) × (national_team_id_by_team_id player.team_id ≡ some t)
      × (x.current_national_team_id ≡ some t)

  abbrev pub Agrees : RealCandidate → Type 0
  Agrees x = SameBirth x × SameHeight x

  -- How close the names are, in units of a point: 100 points for the same name.
  pub data Points (x : RealCandidate) : ℕ → Type 0 where
    full : SameName x → Points x (100 * unit)
    partial : ¬ SameName x → Points x (ratio (normalize_name player.name) (full_name x))

  -- The floor is 85 points.
  abbrev pub IsUnder : RealCandidate → Type 0
  IsUnder x = (s : ℕ) × Points x s × (s < 85 * unit)

  -- `r` is above `x`: it agrees in birth date and height and `x` does not; or `x` agrees in both only
  -- if `r` does, and the name of `r` is closer.
  pub data Above (r x : RealCandidate) : Type 0 where
    surer : Agrees r → ¬ Agrees x → Above r x
    closer : (Agrees x → Agrees r) → (s t : ℕ) → Points r s → Points x t → t < s → Above r x

  -- `r` is the first of the best of the list: not under the floor, above all before it, and none
  -- after it is above it, those under the floor left aside.
  pub record IsBest (reals : List RealCandidate) (r : RealCandidate) : Type 0 where
    pub before : List RealCandidate
    pub after : List RealCandidate
    pub split : reals ≡ before ++ r ∷ after
    pub eligible : ¬ IsUnder r
    pub worse : All (λ x. IsUnder x ⊎ Above r x) before
    pub no_better : All (λ x. IsUnder x ⊎ ¬ Above x r) after

  -- How an exact match is found, with its confidence in thousandths.
  pub data Exact (x : RealCandidate) : PlayerMatchMethod → ℕ → Type 0 where
    by_birth : SameName x → SameBirth x → Exact x exact_name_dob 1000
    by_team : SameName x → ¬ SameBirth x → SameTeam x → Exact x exact_name_team 950

  abbrev pub NotExact : RealCandidate → Type 0
  NotExact x = ¬ (SameName x × (SameBirth x ⊎ SameTeam x))

  -- The confidence of a fuzzy match.
  pub data Fuzzy (x : RealCandidate) : ℕ → Type 0 where
    sure : Agrees x → Fuzzy x 950
    unsure : (s : ℕ) → ¬ Agrees x → Points x s → Fuzzy x (scale_fuzzy_confidence s)

  abbrev pub matched : RealCandidate → PlayerMatchMethod → ℕ → PlayerIdentityCandidate
  matched x method confidence = record {
    player_id = player.id;
    real_player_id = x.player_id;
    match_method = method;
    match_confidence = confidence;
  }

  -- The answer is the first exact match; or no real player matches exactly and it is the best fuzzy
  -- one; or none matches exactly, all are under the floor, and there is no answer.
  pub data Answer (reals : List RealCandidate) : Option PlayerIdentityCandidate → Type 0 where
    exactly :
        (before : List RealCandidate) (r : RealCandidate) (after : List RealCandidate)
        (method : PlayerMatchMethod) (confidence : ℕ)
        → reals ≡ before ++ r ∷ after
        → All NotExact before
        → Exact r method confidence
        → Answer reals (some (matched r method confidence))
    fuzzily :
        (r : RealCandidate) (confidence : ℕ)
        → All NotExact reals
        → IsBest reals r
        → Fuzzy r confidence
        → Answer reals (some (matched r fuzzy_name confidence))
    not_at_all : All NotExact reals → All IsUnder reals → Answer reals none

  abbrev points : RealCandidate → ℕ
  points = score_of normalize_name ratio national_team_id_by_team_id player

  same_name-cases :
      (x : RealCandidate)
      → ((same_name normalize_name ratio national_team_id_by_team_id player x ≡ true) × SameName x)
        ⊎ ((same_name normalize_name ratio national_team_id_by_team_id player x ≡ false)
            × ¬ SameName x)
  same_name-cases x =
      let iff = str_eq_iff (normalize_name player.name) (full_name x) in
      elim (Bool-cases (str_eq (normalize_name player.name) (full_name x))) [
        | inl b ↦ inl (b, ground (arith, b, iff))
        | inr b ↦ inr (b, λ p. ground (arith, b, p, iff))
      ]

  points-Points : (x : RealCandidate) → Points x (points x)
  unfolding score_of
  points-Points x = elim (same_name-cases x) [
    | inl (b, p) ↦ rw b (full p)
    | inr (b, p) ↦ rw b (partial p)
  ]

  Points-unique : (x : RealCandidate) (s : ℕ) → Points x s → points x ≡ s
  unfolding score_of
  Points-unique x s (full p) = elim (same_name-cases x) [
    | inl (b, q) ↦ rw b refl
    | inr (b, q) ↦ absurd (q p)
  ]
  Points-unique x s (partial p) = elim (same_name-cases x) [
    | inl (b, q) ↦ absurd (p q)
    | inr (b, q) ↦ rw b refl
  ]

  corroborated-Agrees : (x : RealCandidate) → corroborated player x ≡ true → Agrees x
  unfolding corroborated
  corroborated-Agrees x h = (
    opt_eq-some x.date_of_birth player.date_of_birth (ground arith),
    opt_eq-some x.height_in_cm player.height_cm (ground arith),
  )

  Agrees-corroborated : (x : RealCandidate) → Agrees x → corroborated player x ≡ true
  unfolding corroborated
  Agrees-corroborated x (p, q) =
      rw
        (
          opt_eq_refl x.date_of_birth player.date_of_birth p,
          opt_eq_refl x.height_in_cm player.height_cm q,
        )
        refl

  below-IsUnder :
      (x : RealCandidate)
      → below normalize_name ratio national_team_id_by_team_id player x ≡ true
      → IsUnder x
  below-IsUnder x h =
      let l : ltb (points x) (85 * unit) ≡ true = h in
      (points x, points-Points x, ground (arith, l))

  IsUnder-below :
      (x : RealCandidate)
      → IsUnder x
      → below normalize_name ratio national_team_id_by_team_id player x ≡ true
  IsUnder-below x (s, p, l) = let e = Points-unique x s p in ground (arith, e, l)

  outranks-Above :
      (r x : RealCandidate)
      → outranks
          (rank normalize_name ratio national_team_id_by_team_id player r)
          (rank normalize_name ratio national_team_id_by_team_id player x)
        ≡ true
      → Above r x
  unfolding rank_of
  outranks-Above r x = go (corroborated player r) (corroborated player x) refl refl
    where
      go :
          (a b : Bool)
          → corroborated player r ≡ a
          → corroborated player x ≡ b
          → outranks (a, points r) (b, points x) ≡ true
          → Above r x
      go true true p q h =
          closer (λ g. corroborated-Agrees r p) (points r) (points x) (points-Points r)
            (points-Points x) (let l : ltb (points x) (points r) ≡ true = h in ground (arith, l))
      go true false p q h =
          surer (corroborated-Agrees r p) (λ g. let e = Agrees-corroborated x g in cc (e, q))
      go false true p q h = cc
      go false false p q h =
          closer (λ g. let e = Agrees-corroborated x g in cc (e, q)) (points r) (points x)
            (points-Points r) (points-Points x)
            (let l : ltb (points x) (points r) ≡ true = h in ground (arith, l))

  Above-outranks :
      (r x : RealCandidate)
      → Above r x
      → outranks
          (rank normalize_name ratio national_team_id_by_team_id player r)
          (rank normalize_name ratio national_team_id_by_team_id player x)
        ≡ true
  unfolding rank_of
  Above-outranks r x h = go (corroborated player r) (corroborated player x) refl refl h
    where
      go :
          (a b : Bool)
          → corroborated player r ≡ a
          → corroborated player x ≡ b
          → Above r x
          → outranks (a, points r) (b, points x) ≡ true
      go a true p q (surer g n) = absurd (n (corroborated-Agrees x q))
      go true false p q (surer g n) = refl
      go false false p q (surer g n) = let e = Agrees-corroborated r g in cc (e, p)
      go true false p q (closer c s t i j l) = refl
      go false false p q (closer c s t i j l) =
          let u = Points-unique r s i in let v = Points-unique x t j in ground (arith, u, v, l)
      go true true p q (closer c s t i j l) =
          let u = Points-unique r s i in let v = Points-unique x t j in ground (arith, u, v, l)
      go false true p q (closer c s t i j l) =
          let e = Agrees-corroborated r (c (corroborated-Agrees x q)) in cc (e, p)

  exact-cases :
      (x : RealCandidate)
      → ((exact normalize_name ratio national_team_id_by_team_id player x ≡ none) × NotExact x)
        ⊎ ((m : PlayerMatchMethod) × (c : ℕ) × (exact normalize_name ratio
                national_team_id_by_team_id player x
              ≡ some (matched x m c))
            × Exact x m c)
  unfolding exact_match
  exact-cases x = elim (same_name-cases x) [
    | inr (b, n) ↦ inl (rw b refl, λ h. n h.0)
    | inl (b, n) ↦ elim (Bool-cases (opt_eq x.date_of_birth (some player.date_of_birth))) [
      | inl d ↦ inr (
        exact_name_dob,
        1000,
        rw (b, d) refl,
        by_birth n (opt_eq-some x.date_of_birth player.date_of_birth d),
      )
      | inr d ↦
          elim (Bool-cases (same_team normalize_name ratio national_team_id_by_team_id player x)) [
            | inl t ↦ inr (
              exact_name_team,
              950,
              rw (b, d, t) refl,
              by_team n
                  (λ p. let e = opt_eq_refl x.date_of_birth player.date_of_birth p in cc (e, d))
                  (both_known (national_team_id_by_team_id player.team_id)
                    x.current_national_team_id t),
            )
            | inr t ↦ inl (
              rw (b, d, t) refl,
              λ (p, h). elim h [
                | inl y ↦ (let e = opt_eq_refl x.date_of_birth player.date_of_birth y in cc (e, d))
                | inr (i, u, v) ↦
                    (let e =
                        known_both (national_team_id_by_team_id player.team_id)
                          x.current_national_team_id i u v in
                      cc (e, t))
              ],
            )
          ]
    ]
  ]

  candidate-Fuzzy :
      (x : RealCandidate)
      → (c : ℕ) × (fuzzy_candidate normalize_name ratio national_team_id_by_team_id player x
            (rank normalize_name ratio national_team_id_by_team_id player x)
          ≡ matched x fuzzy_name c)
        × Fuzzy x c
  unfolding fuzzy_candidate rank_of
  candidate-Fuzzy x = elim (Bool-cases (corroborated player x)) [
    | inl b ↦ (950, rw b refl, sure (corroborated-Agrees x b))
    | inr b ↦ (
      scale_fuzzy_confidence (points x),
      rw b refl,
      unsure (points x) (λ g. let e = Agrees-corroborated x g in cc (e, b)) (points-Points x),
    )
  ]

  none-NotExact :
      (x : RealCandidate)
      → exact normalize_name ratio national_team_id_by_team_id player x ≡ none
      → NotExact x
  none-NotExact x h = elim (exact-cases x) [ inl (e, n) ↦ n | inr (m, c, e, i) ↦ cc (e, h) ]

  IsWorse-Above :
      (r x : RealCandidate)
      → IsWorse normalize_name ratio national_team_id_by_team_id player r x
      → IsUnder x ⊎ Above r x
  IsWorse-Above r x h =
      elim (Bool-cases (below normalize_name ratio national_team_id_by_team_id player x)) [
        | inl b ↦ inl (below-IsUnder x b)
        | inr b ↦ inr (outranks-Above r x (ground (arith, h, b)))
      ]

  IsNoBetter-Above :
      (r x : RealCandidate)
      → IsNoBetter normalize_name ratio national_team_id_by_team_id player r x
      → IsUnder x ⊎ ¬ Above x r
  IsNoBetter-Above r x h =
      elim (Bool-cases (below normalize_name ratio national_team_id_by_team_id player x)) [
        | inl b ↦ inl (below-IsUnder x b)
        | inr b ↦ inr (λ a. let e = Above-outranks x r a in ground (arith, h, b, e))
      ]

  IsFirst-IsBest :
      (reals : List RealCandidate) (r : RealCandidate)
      → IsFirst normalize_name ratio national_team_id_by_team_id player reals r
      → IsBest reals r
  IsFirst-IsBest reals r h = record {
    before = h.before;
    after = h.after;
    split = h.split;
    eligible = λ u. let e = IsUnder-below r u in let f = h.eligible in cc (e, f);
    worse =
        All-map normalize_name ratio national_team_id_by_team_id player _ _ (IsWorse-Above r)
          h.before h.worse;
    no_better =
        All-map normalize_name ratio national_team_id_by_team_id player _ _ (IsNoBetter-Above r)
          h.after h.no_better;
  }

  Ranked-Answer :
      (reals : List RealCandidate) (answer : Option PlayerIdentityCandidate)
      → Ranked normalize_name ratio national_team_id_by_team_id player reals answer
      → Answer reals answer
  Ranked-Answer reals answer (inl (before, r, after, split, none_before, found, e, a)) =
      elim (exact-cases r) [
        | inl (i, n) ↦ cc (e, i)
        | inr (m, c, i, x) ↦
            let same : some (matched r m c) ≡ answer = cc (e, i, a) in
            subst (Answer reals) same (
              exactly before r after m c split
                (All-map normalize_name ratio national_team_id_by_team_id player _ _ none-NotExact
                  before none_before)
                x)
      ]
  Ranked-Answer reals answer (inr (unmatched, inl (r, best, a))) =
      let (c, e, x) = candidate-Fuzzy r in
      subst (Answer reals) (ap some (sym e) ∙ sym a) (
        fuzzily r c
          (All-map normalize_name ratio national_team_id_by_team_id player _ _ none-NotExact reals
            unmatched)
          (IsFirst-IsBest reals r best) x)
  Ranked-Answer reals answer (inr (unmatched, inr (under, a))) = subst (Answer reals) (sym a) (
      not_at_all
        (All-map normalize_name ratio national_team_id_by_team_id player _ _ none-NotExact reals
          unmatched)
        (All-map normalize_name ratio national_team_id_by_team_id player _ _ below-IsUnder reals
          under))

  -- The match of a player is the first of the list that matches exactly: by the name and the birth
  -- date, or by the name and a known national team. With no exact match it is the best by name, the
  -- first of equals, where agreement in birth date and height outweighs any closeness of the names,
  -- and has the confidence of an automatic match if it agrees. There is none if all are under the
  -- floor too.
  pub match_one-Answer :
      (reals : List RealCandidate)
      → Answer reals (match_one normalize_name ratio national_team_id_by_team_id player reals)
  match_one-Answer reals =
      Ranked-Answer reals _
        (match_one-Ranked normalize_name ratio national_team_id_by_team_id player reals)
