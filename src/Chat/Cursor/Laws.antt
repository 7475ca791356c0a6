-- ===== src/Chat/Cursor/Laws.antt =====
-- Texts that match the cursor pattern have two numbers, and are strictly ordered by them.
use fifa_world_cup_ai_agent.Prelude.{
  ℕ, ◌+◌, ◌*◌, ◌≡◌, refl, ap, ◌++◌, ◌⊎◌, ◌≤◌, ◌<◌, length, ltb, true, Option, none, some, List, [],
  ◌∷◌, arith, Bool-cases, Option-cases, inl, inr, ==_iff, ◌==◌,
}
use fifa_world_cup_ai_agent.Chat.Cursor.{
  hyphen, all_digits, some_digits, match_rest, is_stream_cursor, int_from, int, split_hyphen,
  cursor_parts, compared, both, digit_limit, stream_cursor_precedes,
}

-- `left` is strictly before `right`.
abbrev pub Precedes : (ℕ → Option ℕ) → List ℕ → List ℕ → Type 0
Precedes digit left right = stream_cursor_precedes digit left right ≡ some true

module _ (digit : ℕ → Option ℕ) where
  int_from-total :
      (n : ℕ) (cs : List ℕ) → all_digits digit cs ≡ true → (m : ℕ) × (int_from digit n cs ≡ some m)
  int_from-total n [] h = (n, refl)
  int_from-total n (c ∷ cs) h = elim (Option-cases (digit c)) [
    | inl e ↦ absurd (ground arith)
    | inr (d, e) ↦ rw (e, int_from) (int_from-total (n * 10 + d) cs (ground arith))
  ]

  -- A text of digits is a number up to the limit, and refused beyond.
  int-total :
      (cs : List ℕ)
      → some_digits digit cs ≡ true
      → ((length cs ≤ digit_limit) × (m : ℕ) × (int digit cs ≡ some m))
        ⊎ ((digit_limit < length cs) × (int digit cs ≡ none))
  int-total [] h = cc
  int-total (c ∷ cs) h = elim (Bool-cases (ltb digit_limit (length (c ∷ cs)))) [
    | inl b ↦ inr (ground (arith, b), rw b refl)
    | inr b ↦ let (m, e) = int_from-total 0 (c ∷ cs) h in inl (ground (arith, b), m, rw b e)
  ]

  -- A text that the pattern matches from its second character on splits into digits and digits.
  split-total :
      (cs : List ℕ)
      → digit hyphen ≡ none
      → match_rest digit cs ≡ true
      → (a : List ℕ) × (b : List ℕ) × (cs ≡ a ++ hyphen ∷ b)
        × (split_hyphen cs ≡ some (a, b))
        × (all_digits digit a ≡ true)
        × (some_digits digit b ≡ true)
  split-total [] d h = cc
  split-total (c ∷ cs) d h = elim (Bool-cases (c == hyphen)) [
    | inl e ↦
        let p : c ≡ hyphen = (==_iff c hyphen).0 e in
        (
          [],
          cs,
          ap (λ x. x ∷ cs) p,
          ground arith,
          refl,
          let q : digit c ≡ none = rw p d in ground (arith, q),
        )
    | inr e ↦
        let (a, b, j, s, x, y) = split-total cs d (ground arith) in
        (c ∷ a, b, ap (λ l. c ∷ l) j, ground arith, ground arith, y)
  ]

  -- What a text that matches the pattern is: digits, a hyphen, digits.
  cursor_split :
      (cursor : List ℕ)
      → digit hyphen ≡ none
      → is_stream_cursor digit cursor ≡ true
      → (a : List ℕ) × (b : List ℕ) × (cursor ≡ a ++ hyphen ∷ b)
        × (split_hyphen cursor ≡ some (a, b))
        × (some_digits digit a ≡ true)
        × (some_digits digit b ≡ true)
  unfolding is_stream_cursor
  cursor_split [] d h = cc
  cursor_split (c ∷ cs) d h = elim (Bool-cases (c == hyphen)) [
    | inl e ↦
        let p : c ≡ hyphen = (==_iff c hyphen).0 e in
        let q : digit c ≡ none = rw p d in absurd (ground (arith, q))
    | inr e ↦
        let (a, b, j, s, x, y) = split-total cs d (ground arith) in
        (c ∷ a, b, ap (λ l. c ∷ l) j, ground (arith, e, s), ground (arith, x), y)
  ]

  both-cases :
      (a b : List ℕ)
      → some_digits digit a ≡ true
      → some_digits digit b ≡ true
      → ((length a ≤ digit_limit)
          × (length b ≤ digit_limit)
          × (parts : ℕ × ℕ) × (both (int digit a) (int digit b) ≡ some parts))
        ⊎ (((digit_limit < length a) ⊎ (digit_limit < length b))
            × (both (int digit a) (int digit b) ≡ none))
  both-cases a b x y = elim (int-total a x) [
    | inr (l, e) ↦ inr (inl l, rw e refl)
    | inl (l, m, e) ↦ elim (int-total b y) [
      | inr (k, f) ↦ inr (inr k, rw (e, f) refl)
      | inl (k, n, f) ↦ inl (l, k, (m, n), rw (e, f) refl)
    ]
  ]

  -- A text that matches the cursor pattern is two texts around a hyphen, provided that a hyphen is no
  -- digit: it has two numbers if neither is over `int`'s limit of 4300 digits, and raises if one is.
  pub cursor_parts-total :
      (cursor : List ℕ)
      → digit hyphen ≡ none
      → is_stream_cursor digit cursor ≡ true
      → (a : List ℕ) × (b : List ℕ) × (cursor ≡ a ++ hyphen ∷ b)
        × (((length a ≤ 4300)
              × (length b ≤ 4300)
              × (parts : ℕ × ℕ) × (cursor_parts digit cursor ≡ some parts))
            ⊎ (((4300 < length a) ⊎ (4300 < length b)) × (cursor_parts digit cursor ≡ none)))
  unfolding cursor_parts
  cursor_parts-total cursor d h =
      let (a, b, j, s, x, y) = cursor_split cursor d h in
      (a, b, j, rw (s, cursor_parts) (both-cases a b x y))

  pair_lt_trans :
      (p q r : Option (ℕ × ℕ))
      → compared p q ≡ some true
      → compared q r ≡ some true
      → compared p r ≡ some true
  pair_lt_trans (some (a, b)) (some (c, d)) (some (e, f)) h k = ground arith
  pair_lt_trans none q r h k = cc
  pair_lt_trans (some p) none r h k = cc
  pair_lt_trans (some p) (some q) none h k = cc

  -- No cursor precedes itself.
  pub Precedes-irrefl : (cursor : List ℕ) → ¬ Precedes digit cursor cursor
  unfolding stream_cursor_precedes
  Precedes-irrefl cursor h = irrefl (cursor_parts digit cursor) h
    where
      irrefl : (p : Option (ℕ × ℕ)) → compared p p ≡ some true → ⊥
      irrefl none h = cc
      irrefl (some (a, b)) h = ground arith

  -- A cursor that precedes a second, which precedes a third, precedes the third.
  pub Precedes-trans :
      (a b c : List ℕ) → Precedes digit a b → Precedes digit b c → Precedes digit a c
  unfolding stream_cursor_precedes
  Precedes-trans a b c =
      pair_lt_trans (cursor_parts digit a) (cursor_parts digit b) (cursor_parts digit c)
