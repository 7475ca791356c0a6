-- ===== src/Ingestion/Scope/Events.antt =====
-- The references of a scoped event.
use fifa_world_cup_ai_agent.Prelude.{
  ◌≡◌, refl, sym, subst, ◌∙◌, ◌⊎◌, err, String, Bool, true, false, Bool-cases, inl, inr, Option,
  none, some, List, Result, ok, ◌>>=◌, truthy, Eq,
}
use fifa_world_cup_ai_agent.Ingestion.Csv.{RawRow, cell}
use fifa_world_cup_ai_agent.Ingestion.Scope.{
  value_error, member, blank_unless, sanitize_club_reference, sanitized_player,
  sanitize_player_reference, to_int, refers_if, or_refers, event_if, event_row,
}
use fifa_world_cup_ai_agent.Ingestion.Scope.Cells.{
  BlankOr, IsKnownClub, IsBlanked, IsBlanked-BlankOr, BlankOr-blanked, club-own, IsBlanked-trans,
  blank_unless-IsBlanked, club-IsBlanked,
}
use fifa_world_cup_ai_agent.Ingestion.Scope.Loop.{OkTo, OkTo-bind, OkTo-weaken, RowOk}

module _ {Int : Type 0} ⦃e : Eq Int⦄ (int : String → Result String Int) where
  abbrev pub IsKnownPlayer : List Int → String → Type 0
  IsKnownPlayer ids v = (i : Int) × (to_int int v ≡ ok i) × (member i ids ≡ true)

  -- A cell that is no number where one is read: it is not blank, and `int` raises.
  abbrev pub IsMalformed : String → RawRow → Type 0
  IsMalformed c row =
      (v : String) × (cell c row ≡ some v)
      × (truthy v ≡ true)
      × (problem : String) × (int v ≡ err problem)

  IsMalformed-blanked :
      (c : String) (row k : RawRow) → IsBlanked row k → IsMalformed c k → IsMalformed c row
  IsMalformed-blanked c row k b (v, p, t, x, m) = elim (b c) [
    | inl same ↦ (v, sym same ∙ p, t, x, m)
    | inr blank ↦
        let e : some "" ≡ some v = sym blank ∙ p in
        let d : "" ≡ v = cc e in absurd (blank_not_truthy v d t)
  ]
    where
      blank_not_truthy : (v : String) → "" ≡ v → truthy v ≡ true → ⊥
      blank_not_truthy v d t =
          let u : truthy "" ≡ true = subst (λ s. truthy s ≡ true) (sym d) t in cc u

  pub to_int-fails :
      (Bad : Type 0) (v : String)
      → ((problem : String) → int v ≡ err problem → Bad)
      → OkTo Bad (λ i. Unit) (to_int int v)
  to_int-fails Bad v h = go (int v) h
    where
      go :
          (r : Result String Int)
          → ((problem : String) → r ≡ err problem → Bad)
          → OkTo Bad (λ i. Unit) (elim r [ ok i ↦ ok i | err problem ↦ err (value_error problem) ])
      go (ok i) k = tt
      go (err x) k = k x refl

  refers_if-fails :
      (c : String) (ids : List Int) (row : RawRow)
      → OkTo (IsMalformed c row) (λ b. Unit) (refers_if int ids (cell c row))
  refers_if-fails c ids row = go (cell c row) refl
    where
      go :
          (o : Option String)
          → cell c row ≡ o
          → OkTo (IsMalformed c row) (λ b. Unit) (refers_if int ids o)
      go none p = tt
      go (some v) p = elim (Bool-cases (truthy v)) [
        | inr f ↦ rw f tt
        | inl t ↦ rw t (
            OkTo-bind (IsMalformed c row) (λ i. Unit) (λ b. Unit) (to_int int v) _
              (to_int-fails (IsMalformed c row) v (λ x e. (v, p, t, x, e))) (λ i q u. tt))
      ]

  player-own :
      (c : String) (ids : List Int) (row : RawRow)
      → OkTo
          (IsMalformed c row)
          (λ k. BlankOr (IsKnownPlayer ids) (cell c k) × IsBlanked row k)
          (sanitize_player_reference int c ids row)
  unfolding sanitize_player_reference
  player-own c ids row = go (cell c row) refl
    where
      go :
          (o : Option String)
          → cell c row ≡ o
          → OkTo
              (IsMalformed c row)
              (λ k. BlankOr (IsKnownPlayer ids) (cell c k) × IsBlanked row k)
              (sanitized_player int c ids row o)
      go none p = (rw p tt, λ d. inl refl)
      go (some v) p = elim (Bool-cases (truthy v)) [
        | inr f ↦ rw f (rw p (inl f), λ d. inl refl)
        | inl t ↦ rw t (
            OkTo-bind (IsMalformed c row) (λ i. Unit)
              (λ k. BlankOr (IsKnownPlayer ids) (cell c k) × IsBlanked row k) (to_int int v) _
              (to_int-fails (IsMalformed c row) v (λ x e. (v, p, t, x, e)))
              (λ i q u.
                (blanked i q (member i ids) refl, blank_unless-IsBlanked (member i ids) c row)))
      ]
        where
          blanked :
              (i : Int)
              → to_int int v ≡ ok i
              → (b : Bool) → member i ids ≡ b
              → BlankOr (IsKnownPlayer ids) (cell c (blank_unless b c row))
          blanked i q true m = rw p (inr (i, q, m))
          blanked i q false m = BlankOr-blanked (IsKnownPlayer ids) c row

  -- An event whose references resolve, all other cells as they were or blank.
  pub record GoodEvent (real_player_ids : List Int) (known_club_ids : List String) (row k : RawRow)
      : Type 0 where
    pub club : BlankOr (IsKnownClub known_club_ids) (cell "club_id" k)
    pub player : BlankOr (IsKnownPlayer real_player_ids) (cell "player_id" k)
    pub player_in : BlankOr (IsKnownPlayer real_player_ids) (cell "player_in_id" k)
    pub player_assist : BlankOr (IsKnownPlayer real_player_ids) (cell "player_assist_id" k)
    pub blanked : IsBlanked row k

  -- Neither the player nor the club of the row is in scope.
  pub record OutOfScope (real_player_ids real_club_ids : List Int) (row : RawRow) : Type 0 where
    pub player : refers_if int real_player_ids (cell "player_id" row) ≡ ok false
    pub club : refers_if int real_club_ids (cell "club_id" row) ≡ ok false

  -- One of the four references of the row is malformed.
  abbrev pub BadEvent : RawRow → Type 0
  BadEvent row =
      IsMalformed "player_id" row
      ⊎ IsMalformed "club_id" row
      ⊎ IsMalformed "player_in_id" row
      ⊎ IsMalformed "player_assist_id" row

  module _ (players clubs : List Int) (known : List String) (row : RawRow) where
    abbrev EventOk : Option RawRow → Type 0
    EventOk = RowOk (OutOfScope players clubs) (GoodEvent players known) row

    fails :
        (c : String) (ids : List Int)
        → (IsMalformed c row → BadEvent row)
        → OkTo (BadEvent row) (λ b. Unit) (refers_if int ids (cell c row))
    fails c ids bad =
        OkTo-weaken (IsMalformed c row) (BadEvent row) (λ b. Unit) (refers_if int ids (cell c row))
          bad (refers_if-fails c ids row)

    taken_event : OkTo (BadEvent row) EventOk (event_if int players known row true)
    taken_event =
        let r0 = sanitize_club_reference "club_id" known row in
        let known_club = IsKnownClub known in
        let known_player = IsKnownPlayer players in
        let Own = λ (c : String) (r k : RawRow). BlankOr known_player (cell c k) × IsBlanked r k in
        let step = λ (c : String) (r : RawRow). sanitize_player_reference int c players r in
        OkTo-bind (BadEvent row) (Own "player_id" r0) EventOk (step "player_id" r0) _
          (own "player_id" r0 (club-IsBlanked "club_id" known row) (λ m. inl m))
          (λ a ea ha.
            OkTo-bind (BadEvent row) (Own "player_in_id" a) EventOk (step "player_in_id" a) _
              (own "player_in_id" a (to_a a ha.1) (λ m. inr (inr (inl m))))
              (λ b eb hb.
                OkTo-bind (BadEvent row) (Own "player_assist_id" b) EventOk
                  (step "player_assist_id" b) _
                  (own "player_assist_id" b (IsBlanked-trans row a b (to_a a ha.1) hb.1)
                    (λ m. inr (inr (inr m))))
                  (λ c ec hc.
                    let ab = IsBlanked-trans a b c hb.1 hc.1 in
                    let r0c = IsBlanked-trans r0 a c ha.1 ab in
                    record {
                      club =
                          IsBlanked-BlankOr known_club "club_id" r0 c r0c
                            (club-own "club_id" known row);
                      player = IsBlanked-BlankOr known_player "player_id" a c ab ha.0;
                      player_in = IsBlanked-BlankOr known_player "player_in_id" b c hc.1 hb.0;
                      player_assist = hc.0;
                      blanked = IsBlanked-trans row r0 c (club-IsBlanked "club_id" known row) r0c;
                    })))
      where
        to_a :
            (a : RawRow)
            → IsBlanked (sanitize_club_reference "club_id" known row) a
            → IsBlanked row a
        to_a a h =
            IsBlanked-trans row (sanitize_club_reference "club_id" known row) a
              (club-IsBlanked "club_id" known row) h

        own :
            (c : String) (r : RawRow)
            → IsBlanked row r
            → (IsMalformed c row → BadEvent row)
            → OkTo
                (BadEvent row)
                (λ k. BlankOr (IsKnownPlayer players) (cell c k) × IsBlanked r k)
                (sanitize_player_reference int c players r)
        own c r b bad =
            OkTo-weaken (IsMalformed c r) (BadEvent row) _
              (sanitize_player_reference int c players r)
              (λ m. bad (IsMalformed-blanked c row r b m)) (player-own c players r)

    by_club :
        (refers_if int players (cell "player_id" row) ≡ ok false)
        → OkTo
            (BadEvent row)
            EventOk
            (refers_if int clubs (cell "club_id" row) >>= event_if int players known row)
    by_club p =
        OkTo-bind (BadEvent row) (λ b. Unit) EventOk (refers_if int clubs (cell "club_id" row)) _
          (fails "club_id" clubs (λ m. inr (inl m))) (λ scoped q u. by_scope scoped q)
      where
        by_scope :
            (scoped : Bool)
            → refers_if int clubs (cell "club_id" row) ≡ ok scoped
            → OkTo (BadEvent row) EventOk (event_if int players known row scoped)
        by_scope true q = taken_event
        by_scope false q = record { player = p; club = q }

    pub event_row-EventOk : OkTo (BadEvent row) EventOk (event_row int players clubs known row)
    unfolding event_row
    event_row-EventOk =
        OkTo-bind (BadEvent row) (λ b. Unit) EventOk (refers_if int players (cell "player_id" row))
          _ (fails "player_id" players (λ m. inl m)) (λ by_player p u. go by_player p)
      where
        go :
            (by_player : Bool)
            → refers_if int players (cell "player_id" row) ≡ ok by_player
            → OkTo
                (BadEvent row)
                EventOk
                (or_refers int clubs row by_player >>= event_if int players known row)
        go true p = taken_event
        go false p = by_club p
