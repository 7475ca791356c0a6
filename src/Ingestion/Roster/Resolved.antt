-- ===== src/Ingestion/Roster/Resolved.antt =====
-- What the resolution of the teams returns, and when it raises.
use fifa_world_cup_ai_agent.Prelude.{
  ℕ, ◌≡◌, refl, ap, ◌∙◌, String, ◌⊎◌, inl, inr, Option, none, some, List, [], ◌∷◌, ◌++◌, All,
  Result, ok, err, if◌then◌else◌, ◌==◌, arith, Bool-cases, str_eq, str_eq_iff,
}
use fifa_world_cup_ai_agent.Ingestion.Roster.{
  NationalTeam, CountryRow, RosterError, later_or, assign, assign_if, by_name, or_by_code,
  real_team, resolve_from, resolve_national_teams, only_if,
}

abbrev pub lookup : ℕ → List (ℕ × ℕ) → Option ℕ
lookup i [] = none
lookup i ((j, v) ∷ entries) = if j == i then some v else lookup i entries

lookup-assign :
    (i k v : ℕ) (entries : List (ℕ × ℕ))
    → lookup i (assign k v entries) ≡ (if k == i then some v else lookup i entries)
lookup-assign i k v [] = refl
lookup-assign i k v ((j, w) ∷ entries) = ground (arith, lookup-assign i k v entries)

module _ (normalize : String → String) where
  -- The row is the country of the key.
  abbrev pub IsCalled : String → CountryRow → Type 0
  IsCalled key row = normalize row.country_name ≡ key

  -- The last row of the key, if there is one.
  abbrev pub Named : List CountryRow → String → Option ℕ → Type 0
  Named rows key none = All (λ row. ¬ IsCalled key row) rows
  Named rows key (some id) =
      (before : List CountryRow) × (row : CountryRow) × (after : List CountryRow) × (rows
        ≡ before ++ row ∷ after)
      × IsCalled key row
      × (row.national_team_id ≡ id)
      × All (λ r. ¬ IsCalled key r) after

  by_name-Named :
      (key : String) (rows : List CountryRow) → Named rows key (by_name normalize rows key)
  unfolding by_name
  by_name-Named key [] = tt
  by_name-Named key (row ∷ rows) = go (by_name normalize rows key) (by_name-Named key rows)
    where
      go :
          (found : Option ℕ)
          → Named rows key found
          → Named (row ∷ rows) key (
              later_or found
                (only_if (str_eq (normalize row.country_name) key) row.national_team_id))
      go (some id) (before, r, after, s, c, i, rest) =
          (row ∷ before, r, after, ap (λ l. row ∷ l) s, c, i, rest)
      go none h = elim (Bool-cases (str_eq (normalize row.country_name) key)) [
        | inl b ↦ rw b (
          [],
          row,
          rows,
          refl,
          ground (arith, b, str_eq_iff (normalize row.country_name) key),
          refl,
          h,
        )
        | inr b ↦ rw b (λ p. ground (arith, b, p, str_eq_iff (normalize row.country_name) key), h)
      ]

module _ (normalize : String → String) (rows : List CountryRow) where
  -- The country of a team: of its name, or, if no row has its name, of its code.
  pub data IsCountry (team : NationalTeam) : Option ℕ → Type 0 where
    of_name :
        (id : ℕ) → Named normalize rows (normalize team.name) (some id) → IsCountry team (some id)
    of_code :
        (code : String) (found : Option ℕ)
        → Named normalize rows (normalize team.name) none
        → team.fifa_code ≡ some code
        → Named normalize rows (normalize code) found
        → IsCountry team found

  -- The country of an id: that of the last team with that id that has one.
  abbrev pub newer : Option ℕ → Option ℕ → Option ℕ
  newer none old = old
  newer (some id) old = some id

  abbrev pub country_of : (NationalTeam → Option ℕ) → ℕ → List NationalTeam → Option ℕ → Option ℕ
  country_of country i [] old = old
  country_of country i (team ∷ teams) old =
      country_of country i teams (if team.id == i then newer (country team) old else old)

  -- A team whose name is not found and that has no code.
  abbrev pub IsCodeless : NationalTeam → Type 0
  IsCodeless team = Named normalize rows (normalize team.name) none × (team.fifa_code ≡ none)

  abbrev pub Some : (NationalTeam → Type 0) → List NationalTeam → Type 0
  Some P [] = ⊥
  Some P (team ∷ teams) = P team ⊎ Some P teams

  -- The result: the country of every id, or the error of a team that has no code.
  abbrev pub Resolution :
      List NationalTeam → List (ℕ × ℕ) → Result RosterError (List (ℕ × ℕ)) → Type 0
  Resolution teams old (ok entries) =
      (country : NationalTeam → Option ℕ) × All (λ team. IsCountry team (country team)) teams
      × ((i : ℕ) → lookup i entries ≡ country_of country i teams (lookup i old))
  Resolution teams old (err x) = Some IsCodeless teams

  abbrev coded : Option String → Option ℕ
  coded none = none
  coded (some code) = by_name normalize rows (normalize code)

  abbrev country : NationalTeam → Option ℕ
  country team = later_or (by_name normalize rows (normalize team.name)) (coded team.fifa_code)

  -- The resolution with `country` for the countries.
  abbrev Found : List NationalTeam → List (ℕ × ℕ) → Result RosterError (List (ℕ × ℕ)) → Type 0
  Found teams old (ok entries) =
      All (λ team. IsCountry team (country team)) teams
      × ((i : ℕ) → lookup i entries ≡ country_of country i teams (lookup i old))
  Found teams old (err x) = Some IsCodeless teams

  real_team-cases :
      (team : NationalTeam)
      → ((real_team normalize rows team ≡ ok (country team)) × IsCountry team (country team))
        ⊎ ((x : RosterError) × (real_team normalize rows team ≡ err x) × IsCodeless team)
  unfolding real_team
  real_team-cases team =
      go (by_name normalize rows (normalize team.name)) team.fifa_code
        (by_name-Named normalize (normalize team.name) rows) refl
    where
      go :
          (found : Option ℕ) (code : Option String)
          → Named normalize rows (normalize team.name) found
          → team.fifa_code ≡ code
          → ((or_by_code normalize rows code found ≡ ok (later_or found (coded code)))
              × IsCountry team (later_or found (coded code)))
            ⊎ ((x : RosterError) × (or_by_code normalize rows code found ≡ err x) × IsCodeless team)
      go (some id) code p q = inl (refl, of_name id p)
      go none (some code) p q = inl (
        refl,
        of_code code (coded (some code)) p q (by_name-Named normalize (normalize code) rows),
      )
      go none none p q = inr (RosterError.type_error, refl, (p, q))

  lookup-assign_if :
      (i k : ℕ) (found : Option ℕ) (entries : List (ℕ × ℕ))
      → lookup i (assign_if k found entries)
        ≡ (if k == i then newer found (lookup i entries) else lookup i entries)
  lookup-assign_if i k none entries = ground arith
  lookup-assign_if i k (some v) entries = lookup-assign i k v entries

  resolve_from-Resolution :
      (teams : List NationalTeam) (old : List (ℕ × ℕ))
      → Found teams old (resolve_from normalize rows old teams)
  unfolding resolve_from
  resolve_from-Resolution [] old = (tt, λ i. refl)
  resolve_from-Resolution (team ∷ teams) old = elim (real_team-cases team) [
    | inr (x, e, h) ↦ rw e (inl h)
    | inl (e, c) ↦
        let next = assign_if team.id (country team) old in
        rw e
          (extend c (resolve_from normalize rows next teams) (resolve_from-Resolution teams next))
  ]
    where
      extend :
          IsCountry team (country team)
          → (r : Result RosterError (List (ℕ × ℕ)))
          → Found teams (assign_if team.id (country team) old) r
          → Found (team ∷ teams) old r
      extend c (err x) h = inr h
      extend c (ok entries) (cs, h) = (
        (c, cs),
        λ i. h i ∙ ap (country_of country i teams) (lookup-assign_if i team.id (country team) old),
      )

  Found-Resolution :
      (teams : List NationalTeam) (old : List (ℕ × ℕ)) (r : Result RosterError (List (ℕ × ℕ)))
      → Found teams old r
      → Resolution teams old r
  Found-Resolution teams old (err x) h = h
  Found-Resolution teams old (ok entries) h = (country, h.0, h.1)

  -- Each team of the roster gets the country of the last row with its name, names compared as they
  -- are normalized, or, where no row has its name, of the last row with its code; an id has the
  -- country of the last of its teams that has one. The resolution raises only for a team whose name
  -- is no row's and that has no code.
  pub resolve_national_teams-Resolution :
      (teams : List NationalTeam)
      → Resolution teams [] (resolve_national_teams normalize teams rows)
  unfolding resolve_national_teams
  resolve_national_teams-Resolution teams =
      Found-Resolution teams [] _ (resolve_from-Resolution teams [])
