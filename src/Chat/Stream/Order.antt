-- ===== src/Chat/Stream/Order.antt =====
-- Ordered streams: what XREAD returns after the id of the last entry, or after an older one.
use fifa_world_cup_ai_agent.Prelude.{
  ◌≡◌, refl, subst, some, List, [], ◌∷◌, ◌++◌, last?, All, All-append, arith,
}
use fifa_world_cup_ai_agent.Chat.Cursor.Laws.{Precedes, Precedes-irrefl, Precedes-trans}
use fifa_world_cup_ai_agent.Chat.Stream.{
  Digits, EntryId, StreamFields, Entry, later, IsOrdered, Added,
}

module _ (d : Digits) where
  pub later-append :
      (c : EntryId) (xs ys : List Entry) → later d c (xs ++ ys) ≡ later d c xs ++ later d c ys
  later-append c [] ys = refl
  later-append c (x ∷ xs) ys = ground (arith, later-append c xs ys)

  -- Nothing is read of entries that are not after the cursor.
  pub later-none :
      (c : EntryId) (xs : List Entry)
      → All (λ (e : Entry). ¬ Precedes d.digit c e.0) xs
      → later d c xs ≡ []
  later-none c [] h = refl
  later-none c (x ∷ xs) h = ground (arith, later-none c xs h.1)

  -- Everything is read of entries that are.
  pub later-All :
      (c : EntryId) (xs : List Entry)
      → All (λ (e : Entry). Precedes d.digit c e.0) xs
      → later d c xs ≡ xs
  later-All c [] h = refl
  later-All c (x ∷ xs) h = ground (arith, later-All c xs h.1)

  pub IsOrdered-snoc :
      (xs : List Entry) (id : EntryId) (f : StreamFields)
      → IsOrdered d xs
      → All (λ (e : Entry). Precedes d.digit e.0 id) xs
      → IsOrdered d (xs ++ (id, f) ∷ [])
  IsOrdered-snoc [] id f o h = (tt, tt)
  IsOrdered-snoc (x ∷ xs) id f o h = (
    All-append (λ (e : Entry). Precedes d.digit x.0 e.0) xs ((id, f) ∷ []) o.0 (h.0, tt),
    IsOrdered-snoc xs id f o.1 h.1,
  )

  pub Added-IsOrdered :
      (f : StreamFields) (old new : List Entry)
      → IsOrdered d old
      → Added d f old new
      → IsOrdered d new
  Added-IsOrdered f old new o a = rw a.entries (IsOrdered-snoc old a.id f o a.last)

  last-after :
      (x : Entry) (xs : List Entry) (l : Entry)
      → All (λ (e : Entry). Precedes d.digit x.0 e.0) xs
      → last? xs ≡ some l
      → Precedes d.digit x.0 l.0
  last-after x [] l h e = cc
  last-after x (y ∷ []) l h e = ground arith
  last-after x (y ∷ z ∷ xs) l h e = last-after x (z ∷ xs) l h.1 e

  -- In an ordered stream no entry is after the last.
  pub none_after_last :
      (xs : List Entry) (l : Entry)
      → IsOrdered d xs
      → last? xs ≡ some l
      → All (λ (e : Entry). ¬ Precedes d.digit l.0 e.0) xs
  none_after_last [] l o e = tt
  none_after_last (x ∷ []) l o e =
      let same : x ≡ l = ground arith in
      (
        λ p. Precedes-irrefl d.digit l.0 (subst (λ (y : Entry). Precedes d.digit l.0 y.0) same p),
        tt,
      )
  none_after_last (x ∷ y ∷ xs) l o e = (
    λ p.
        Precedes-irrefl d.digit x.0
          (Precedes-trans d.digit x.0 l.0 x.0 (last-after x (y ∷ xs) l o.0 e) p),
    none_after_last (y ∷ xs) l o.1 e,
  )

  -- What is after the last entry is after all others.
  pub after_last :
      (xs : List Entry) (l : Entry) (id : EntryId)
      → last? xs ≡ some l
      → All (λ (e : Entry). Precedes d.digit e.0 id) xs
      → Precedes d.digit l.0 id
  after_last [] l id e h = cc
  after_last (x ∷ []) l id e h = ground arith
  after_last (x ∷ y ∷ xs) l id e h = after_last (y ∷ xs) l id e h.1
