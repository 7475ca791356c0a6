-- ===== src/Ingestion/Scope/Cells.antt =====
-- References to clubs, and what blanking does to the cells of a row.
use fifa_world_cup_ai_agent.Prelude.{
  ◌≡◌, refl, sym, subst, ◌∙◌, String, Bool, true, false, Bool-cases, ◌||◌, not, ◌⊎◌, inl, inr,
  Option, none, some, List, [], ◌∷◌, if◌then◌else◌, truthy, str_eq, str_eq_iff, str_eq_refl, arith,
}
use fifa_world_cup_ai_agent.Ingestion.Csv.{RawRow, cell}
use fifa_world_cup_ai_agent.Ingestion.Specs.Rename.{put}
use fifa_world_cup_ai_agent.Ingestion.Scope.{
  has_text, blank_unless, sanitized_club, sanitize_club_reference,
}

cell-put :
    (c d v : String) (row : RawRow)
    → cell d (put c v row) ≡ (if str_eq c d then some v else cell d row)
cell-put c d v [] = refl
cell-put c d v ((n, w) ∷ row) =
    ground (arith, str_eq_iff n c, str_eq_iff n d, str_eq_iff c d, cell-put c d v row)

-- A cell is missing, blank, or good.
abbrev pub BlankOr : (String → Type 0) → Option String → Type 0
BlankOr Good none = Unit
BlankOr Good (some v) = (truthy v ≡ false) ⊎ Good v

abbrev pub IsKnownClub : List String → String → Type 0
IsKnownClub known v = has_text v known ≡ true

-- The other columns of a row are as they were, or blank.
abbrev pub IsBlanked : RawRow → RawRow → Type 0
IsBlanked row kept = (c : String) → (cell c kept ≡ cell c row) ⊎ (cell c kept ≡ some "")

pub IsBlanked-BlankOr :
    (Good : String → Type 0) (d : String) (row k : RawRow)
    → IsBlanked row k
    → BlankOr Good (cell d row)
    → BlankOr Good (cell d k)
IsBlanked-BlankOr Good d row k b h = elim (b d) [
  | inl p ↦ subst (BlankOr Good) (sym p) h
  | inr p ↦ subst (BlankOr Good) (sym p) (inl refl)
]

pub BlankOr-blanked :
    (Good : String → Type 0) (c : String) (row : RawRow) → BlankOr Good (cell c (put c "" row))
BlankOr-blanked Good c row =
    let blank : cell c (put c "" row) ≡ some "" = cell-put c c "" row ∙ rw (str_eq_refl c) refl in
    subst (BlankOr Good) (sym blank) (inl refl)

pub club-own :
    (c : String) (known : List String) (row : RawRow)
    → BlankOr (IsKnownClub known) (cell c (sanitize_club_reference c known row))
unfolding sanitize_club_reference
club-own c known row = go (cell c row) refl
  where
    go :
        (o : Option String)
        → cell c row ≡ o
        → BlankOr (IsKnownClub known) (cell c (sanitized_club c known row o))
    go none p = rw p tt
    go (some v) p = elim (Bool-cases (not (truthy v) || has_text v known)) [
      | inl b ↦
          rw (b, p)
            (elim (Bool-cases (truthy v)) [ inl t ↦ inr (ground (arith, b, t)) | inr f ↦ inl f ])
      | inr b ↦ rw b (BlankOr-blanked (IsKnownClub known) c row)
    ]

pub IsBlanked-trans : (a b c : RawRow) → IsBlanked a b → IsBlanked b c → IsBlanked a c
IsBlanked-trans a b c h k d = elim (k d) [
  | inr blank ↦ inr blank
  | inl same ↦ elim (h d) [ inl e ↦ inl (same ∙ e) | inr e ↦ inr (same ∙ e) ]
]

pub blank_unless-IsBlanked :
    (known : Bool) (c : String) (row : RawRow) → IsBlanked row (blank_unless known c row)
blank_unless-IsBlanked true c row d = inl refl
blank_unless-IsBlanked false c row d = elim (Bool-cases (str_eq c d)) [
  | inl b ↦ inr (cell-put c d "" row ∙ rw b refl)
  | inr b ↦ inl (cell-put c d "" row ∙ rw b refl)
]

pub club-IsBlanked :
    (c : String) (known : List String) (row : RawRow)
    → IsBlanked row (sanitize_club_reference c known row)
unfolding sanitize_club_reference
club-IsBlanked c known row = go (cell c row)
  where
    go : (o : Option String) → IsBlanked row (sanitized_club c known row o)
    go none = λ d. inl refl
    go (some v) = blank_unless-IsBlanked (not (truthy v) || has_text v known) c row
