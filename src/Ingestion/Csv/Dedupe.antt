-- ===== src/Ingestion/Csv/Dedupe.antt =====
-- What the deduplication of a batch keeps: the last row of each key.
use fifa_world_cup_ai_agent.Prelude.{
  ◌≡◌, refl, sym, subst, ap, ◌∙◌, String, true, false, Bool-cases, Option, some, List, [], ◌∷◌, All,
  Result, ok, Eq, list_beq, list_beq_iff, if◌then◌else◌, inl, inr,
}
use fifa_world_cup_ai_agent.Ingestion.Csv.{
  Failure, Row, Key, key_of, assign, values, dedupe_from, dedupe_by_conflict_columns,
}

module _ {V : Type 0} ⦃e : Eq V⦄ where
  -- The last row with a key among keyed rows, or else an older one.
  abbrev pub latest : Key V → List (Key V × Row V) → Option (Row V) → Option (Row V)
  latest k [] old = old
  latest k ((j, row) ∷ rows) old = latest k rows (if list_beq j k then some row else old)

  -- No two of the keyed rows have one key.
  abbrev pub IsKeyed : List (Key V × Row V) → Type 0
  IsKeyed [] = Unit
  IsKeyed ((k, row) ∷ rows) =
      All (λ (p : Key V × Row V). list_beq p.0 k ≡ false) rows × IsKeyed rows

  latest-none :
      (k : Key V) (rows : List (Key V × Row V)) (old : Option (Row V))
      → All (λ (p : Key V × Row V). list_beq p.0 k ≡ false) rows
      → latest k rows old ≡ old
  latest-none k [] old h = refl
  latest-none k ((j, row) ∷ rows) old h = rw h.0 (latest-none k rows old h.1)

  beq_refl : (k : Key V) → list_beq k k ≡ true
  beq_refl k = (list_beq_iff k k).1 refl

  -- Equal keys compare alike.
  beq_left : (j k l : Key V) → list_beq j k ≡ true → list_beq j l ≡ list_beq k l
  beq_left j k l h = ap (λ x. list_beq x l) ((list_beq_iff j k).0 h)

  beq-flip : (j k : Key V) → list_beq j k ≡ false → list_beq k j ≡ false
  beq-flip j k h = elim (Bool-cases (list_beq k j)) [
    | inl t ↦ cc (h, subst (λ x. list_beq x k ≡ true) ((list_beq_iff k j).0 t) (beq_refl k))
    | inr f ↦ f
  ]

  assign-All :
      (P : Key V → Type 0) (key : Key V) (row : Row V) (d : List (Key V × Row V))
      → P key
      → All (λ (p : Key V × Row V). P p.0) d
      → All (λ (p : Key V × Row V). P p.0) (assign key row d)
  unfolding assign
  assign-All P key row [] h k = (h, tt)
  assign-All P key row ((j, r) ∷ d) h k =
      let rest = assign-All P key row d h k.1 in
      elim (Bool-cases (list_beq j key)) [ inl t ↦ rw t k | inr f ↦ rw f (k.0, rest) ]

  assign-IsKeyed :
      (key : Key V) (row : Row V) (d : List (Key V × Row V))
      → IsKeyed d
      → IsKeyed (assign key row d)
  unfolding assign
  assign-IsKeyed key row [] h = (tt, tt)
  assign-IsKeyed key row ((j, r) ∷ d) h =
      let rest = assign-IsKeyed key row d h.1 in
      elim (Bool-cases (list_beq j key)) [
        | inl t ↦ rw t h
        | inr f ↦
            rw f (assign-All (λ k. list_beq k j ≡ false) key row d (beq-flip j key f) h.0, rest)
      ]

  latest-assign :
      (k key : Key V) (row : Row V) (d : List (Key V × Row V)) (old : Option (Row V))
      → IsKeyed d
      → latest k (assign key row d) old ≡ (if list_beq key k then some row else latest k d old)
  unfolding assign
  latest-assign k key row [] old h = refl
  latest-assign k key row ((j, r) ∷ d) old h =
      let rest = latest-assign k key row d (if list_beq j k then some r else old) h.1 in
      elim (Bool-cases (list_beq j key)) [
        | inl t ↦ elim (Bool-cases (list_beq key k)) [
          | inl u ↦
              rw (t, u)
                (ap (λ b. latest k d (if b then some row else old)) (beq_left j key k t ∙ u)
                  ∙ latest-none k d (some row) (
                      subst (λ x. All (λ (p : Key V × Row V). list_beq p.0 x ≡ false) d)
                        ((list_beq_iff j key).0 t ∙ (list_beq_iff key k).0 u) h.0))
          | inr u ↦
              rw (t, u)
                (ap (λ b. latest k d (if b then some row else old)) (beq_left j key k t ∙ u)
                  ∙ sym (ap (λ b. latest k d (if b then some r else old)) (beq_left j key k t ∙ u)))
        ]
        | inr f ↦ rw f rest
      ]

  -- The keyed rows have their own keys.
  abbrev pub HasKeys : List String → List (Key V × Row V) → Type 0
  HasKeys columns ps = All (λ (p : Key V × Row V). key_of columns p.1 ≡ ok p.0) ps

  assign-HasKeys :
      (columns : List String) (key : Key V) (row : Row V) (d : List (Key V × Row V))
      → key_of columns row ≡ ok key
      → HasKeys columns d
      → HasKeys columns (assign key row d)
  unfolding assign
  assign-HasKeys columns key row [] h k = (h, tt)
  assign-HasKeys columns key row ((j, r) ∷ d) h k =
      let rest = assign-HasKeys columns key row d h k.1 in
      elim (Bool-cases (list_beq j key)) [
        | inl t ↦ rw t (h ∙ ap ok (sym ((list_beq_iff j key).0 t)), k.1)
        | inr f ↦ rw f (k.0, rest)
      ]

  -- What a deduplicated batch is, as keyed rows: no key twice, and the last row of each key.
  pub record Deduped (columns : List String) (ps : List (Key V × Row V))
      (result : Result Failure (List (Row V))) : Type 0 where
    pub kept : List (Key V × Row V)
    pub computed : result ≡ ok (values kept)
    pub keyed : IsKeyed kept
    pub has_keys : HasKeys columns kept
    pub same_latest : (k : Key V) (old : Option (Row V)) → latest k kept old ≡ latest k ps old

  dedupe_from-latest :
      (columns : List String) (d ps : List (Key V × Row V))
      → IsKeyed d
      → HasKeys columns d
      → HasKeys columns ps
      → (kept : List (Key V × Row V)) × (dedupe_from columns d (values ps) ≡ ok kept)
        × IsKeyed kept
        × HasKeys columns kept
        × ((k : Key V) (old : Option (Row V)) → latest k kept old ≡ latest k ps (latest k d old))
  unfolding dedupe_from
  dedupe_from-latest columns d [] u h hs = (d, refl, u, h, λ k old. refl)
  dedupe_from-latest columns d ((key, row) ∷ ps) u h hs =
      let (kept, c, q, a, l) =
        dedupe_from-latest columns (assign key row d) ps (assign-IsKeyed key row d u)
          (assign-HasKeys columns key row d hs.0 h) hs.1 in
      (kept, rw hs.0 c, q, a, λ k old. l k old ∙ ap (latest k ps) (latest-assign k key row d old u))

  -- The deduplication of a batch whose rows have their keys never raises: it keeps one row for each
  -- key, the last one of the batch.
  pub dedupe-Deduped :
      (columns : List String) (ps : List (Key V × Row V))
      → HasKeys columns ps
      → Deduped columns ps (dedupe_by_conflict_columns columns (values ps))
  unfolding dedupe_by_conflict_columns
  dedupe-Deduped columns ps h =
      let (kept, c, q, a, l) = dedupe_from-latest columns [] ps tt tt h in
      record { kept = kept; computed = rw c refl; keyed = q; has_keys = a; same_latest = l }
