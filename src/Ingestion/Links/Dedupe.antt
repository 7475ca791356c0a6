-- ===== src/Ingestion/Links/Dedupe.antt =====
-- What the deduplication of candidates keeps.
use fifa_world_cup_ai_agent.Prelude.{
  ℕ, ◌≤◌, ◌≡◌, ◌≢◌, refl, sym, subst, ◌∙◌, true, Bool-cases, ==_iff, List, [], ◌∷◌, All, ◌⊎◌, inl,
  inr, arith, ltb, ◌==◌,
}
use fifa_world_cup_ai_agent.Ingestion.Matching.{PlayerIdentityCandidate}
use fifa_world_cup_ai_agent.Ingestion.Links.{keep_best, dedupe_from, dedupe_by_real_player_id}

abbrev pub Any : (PlayerIdentityCandidate → Type 0) → List PlayerIdentityCandidate → Type 0
Any P [] = ⊥
Any P (x ∷ xs) = P x ⊎ Any P xs

-- `k` stands for `c`: the same real player, with no less confidence.
abbrev pub Covers : PlayerIdentityCandidate → PlayerIdentityCandidate → Type 0
Covers c k = (c.real_player_id ≡ k.real_player_id) × (c.match_confidence ≤ k.match_confidence)

-- No two candidates have the same real player.
abbrev pub IsDistinct : List PlayerIdentityCandidate → Type 0
IsDistinct [] = Unit
IsDistinct (x ∷ xs) =
    All (λ (y : PlayerIdentityCandidate). x.real_player_id ≢ y.real_player_id) xs × IsDistinct xs

same_key : (a b : ℕ) → (a == b) ≡ true → a ≡ b
same_key a b h = (==_iff a b).0 h

keep_best-All :
    (P : PlayerIdentityCandidate → Type 0) (c : PlayerIdentityCandidate)
    (bs : List PlayerIdentityCandidate)
    → P c
    → All P bs
    → All P (keep_best c bs)
unfolding keep_best
keep_best-All P c [] p h = (p, tt)
keep_best-All P c (b ∷ bs) p h =
    let rest = keep_best-All P c bs p h.1 in
    elim (Bool-cases (b.real_player_id == c.real_player_id)) [
      | inl e ↦ elim (Bool-cases (ltb b.match_confidence c.match_confidence)) [
        | inl o ↦ rw (e, o) (p, h.1)
        | inr o ↦ rw (e, o) h
      ]
      | inr e ↦ rw e (h.0, rest)
    ]

keep_best-Covers :
    (c : PlayerIdentityCandidate) (bs : List PlayerIdentityCandidate)
    → Any (Covers c) (keep_best c bs)
unfolding keep_best
keep_best-Covers c [] = inl (refl, omega arith)
keep_best-Covers c (b ∷ bs) = elim (Bool-cases (b.real_player_id == c.real_player_id)) [
  | inl e ↦ elim (Bool-cases (ltb b.match_confidence c.match_confidence)) [
    | inl o ↦ rw (e, o) (inl (refl, omega arith))
    | inr o ↦
        rw (e, o) (inl (sym (same_key b.real_player_id c.real_player_id e), ground (arith, o)))
  ]
  | inr e ↦ rw e (inr (keep_best-Covers c bs))
]

keep_best-Any :
    (d c : PlayerIdentityCandidate) (bs : List PlayerIdentityCandidate)
    → Any (Covers d) bs
    → Any (Covers d) (keep_best c bs)
unfolding keep_best
keep_best-Any d c [] h = absurd h
keep_best-Any d c (b ∷ bs) (inl (p, q)) = elim (Bool-cases (b.real_player_id == c.real_player_id)) [
  | inl e ↦ elim (Bool-cases (ltb b.match_confidence c.match_confidence)) [
    | inl o ↦
        rw (e, o) (inl (p ∙ same_key b.real_player_id c.real_player_id e, ground (arith, o, q)))
    | inr o ↦ rw (e, o) (inl (p, q))
  ]
  | inr e ↦ rw e (inl (p, q))
]
keep_best-Any d c (b ∷ bs) (inr h) =
    let rest = keep_best-Any d c bs h in
    elim (Bool-cases (b.real_player_id == c.real_player_id)) [
      | inl e ↦ rw e (inr h)
      | inr e ↦ rw e (inr rest)
    ]

keep_best-IsDistinct :
    (c : PlayerIdentityCandidate) (bs : List PlayerIdentityCandidate)
    → IsDistinct bs
    → IsDistinct (keep_best c bs)
unfolding keep_best
keep_best-IsDistinct c [] h = (tt, tt)
keep_best-IsDistinct c (b ∷ bs) h =
    let rest = keep_best-IsDistinct c bs h.1 in
    elim (Bool-cases (b.real_player_id == c.real_player_id)) [
      | inl e ↦ elim (Bool-cases (ltb b.match_confidence c.match_confidence)) [
        | inl o ↦
            rw (e, o)
              (
                subst (λ n. All (λ (y : PlayerIdentityCandidate). n ≢ y.real_player_id) bs)
                    (same_key b.real_player_id c.real_player_id e) h.0,
                h.1,
              )
        | inr o ↦ rw (e, o) h
      ]
      | inr e ↦ rw e (
        keep_best-All (λ (y : PlayerIdentityCandidate). b.real_player_id ≢ y.real_player_id) c bs
            (ground (arith, e)) h.0,
        rest,
      )
    ]

-- What holds of the kept candidates while the rest are still to come.
dedupe_from-All :
    (P : PlayerIdentityCandidate → Type 0) (best cs : List PlayerIdentityCandidate)
    → All P best
    → All P cs
    → All P (dedupe_from best cs)
unfolding dedupe_from
dedupe_from-All P best [] h k = h
dedupe_from-All P best (c ∷ cs) h k =
    dedupe_from-All P (keep_best c best) cs (keep_best-All P c best k.0 h) k.1

dedupe_from-IsDistinct :
    (best cs : List PlayerIdentityCandidate) → IsDistinct best → IsDistinct (dedupe_from best cs)
unfolding dedupe_from
dedupe_from-IsDistinct best [] h = h
dedupe_from-IsDistinct best (c ∷ cs) h =
    dedupe_from-IsDistinct (keep_best c best) cs (keep_best-IsDistinct c best h)

dedupe_from-Any :
    (d : PlayerIdentityCandidate) (best cs : List PlayerIdentityCandidate)
    → Any (Covers d) best
    → Any (Covers d) (dedupe_from best cs)
unfolding dedupe_from
dedupe_from-Any d best [] h = h
dedupe_from-Any d best (c ∷ cs) h =
    dedupe_from-Any d (keep_best c best) cs (keep_best-Any d c best h)

dedupe_from-Covers :
    (best cs : List PlayerIdentityCandidate)
    → All (λ (c : PlayerIdentityCandidate). Any (Covers c) (dedupe_from best cs)) cs
unfolding dedupe_from
dedupe_from-Covers best [] = tt
dedupe_from-Covers best (c ∷ cs) = (
  dedupe_from-Any c (keep_best c best) cs (keep_best-Covers c best),
  dedupe_from-Covers (keep_best c best) cs,
)

All-map_Any :
    (x : PlayerIdentityCandidate) (xs ys : List PlayerIdentityCandidate)
    → All (λ (k : PlayerIdentityCandidate). Any (λ d. k ≡ d) ys) xs
    → All (λ (k : PlayerIdentityCandidate). Any (λ d. k ≡ d) (x ∷ ys)) xs
All-map_Any x [] ys h = tt
All-map_Any x (k ∷ ks) ys h = (inr h.0, All-map_Any x ks ys h.1)

All-members :
    (cs : List PlayerIdentityCandidate)
    → All (λ (k : PlayerIdentityCandidate). Any (λ d. k ≡ d) cs) cs
All-members [] = tt
All-members (c ∷ cs) = (inl refl, All-map_Any c cs cs (All-members cs))

-- The kept candidates are some of those that were given, no two of one real player, and for each
-- that was given one is kept with the same real player and no less confidence.
pub dedupe_by_real_player_id-IsDistinct :
    (candidates : List PlayerIdentityCandidate)
    → let kept = dedupe_by_real_player_id candidates in
      IsDistinct kept
      × All (λ (k : PlayerIdentityCandidate). Any (λ d. k ≡ d) candidates) kept
      × All (λ (c : PlayerIdentityCandidate). Any (Covers c) kept) candidates
unfolding dedupe_by_real_player_id
dedupe_by_real_player_id-IsDistinct candidates = (
  dedupe_from-IsDistinct [] candidates tt,
  dedupe_from-All (λ (k : PlayerIdentityCandidate). Any (λ d. k ≡ d) candidates) [] candidates tt
      (All-members candidates),
  dedupe_from-Covers [] candidates,
)
