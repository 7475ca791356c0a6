-- ===== src/Chat/Turn/Tail.antt =====
-- The tail of a turn stream: what `last_stream_cursor` returns.
use fifa_world_cup_ai_agent.Prelude.{
  ◌≡◌, refl, subst, inl, inr, true, none, some, Option-cases, List, [], ◌∷◌, last?, All, arith,
}
use fifa_world_cup_ai_agent.Chat.Cursor.{is_stream_cursor, stream_cursor_origin}
use fifa_world_cup_ai_agent.Chat.Cursor.Laws.{Precedes}
use fifa_world_cup_ai_agent.Chat.Stream.{
  Digits, EntryId, Entry, Redis, IsOrdered, last_stream_cursor,
}
use fifa_world_cup_ai_agent.Chat.Turn.Inv.{Known}
use fifa_world_cup_ai_agent.Chat.Stream.Order.{none_after_last, after_last}

last?-none : {A : Type 0} (xs : List A) → last? xs ≡ none → xs ≡ []
last?-none [] e = refl
last?-none (x ∷ []) e = cc
last?-none (x ∷ y ∷ xs) e = cc (last?-none (y ∷ xs) e)

module _ (d : Digits) where
  origin-valid : is_stream_cursor d.digit stream_cursor_origin ≡ true
  unfolding is_stream_cursor
  origin-valid = ground (arith, d.zero_digit)

  module _ (redis : Redis d) where
    open redis use {Store, get, xrange, xadd, set_nx}

    -- `last_stream_cursor` is a cursor that no entry is after, and that every later id is after.
    pub record IsTail (store : Store) (c : EntryId) : Type 0 where
      pub known : Known d (xrange store) c
      pub past : All (λ (e : Entry). ¬ Precedes d.digit c e.0) (xrange store)

    All-last :
        (P : Entry → Type 0) (xs : List Entry) (l : Entry) → All P xs → last? xs ≡ some l → P l
    All-last P [] l h e = cc
    All-last P (x ∷ []) l h e = let p : x ≡ l = ground arith in subst P p h.0
    All-last P (x ∷ y ∷ xs) l h e = All-last P (y ∷ xs) l h.1 e

    pub last_stream_cursor-IsTail :
        (store : Store)
        → IsOrdered d (xrange store)
        → All (λ (e : Entry). is_stream_cursor d.digit e.0 ≡ true) (xrange store)
        → IsTail store (last_stream_cursor d redis store)
    unfolding last_stream_cursor
    last_stream_cursor-IsTail store o v = elim (Option-cases (last? (xrange store))) [
      | inl e ↦
          rw (redis.xrevrange_last store, e)
            (record {
              known = record { valid = origin-valid; bound = λ id h p. p };
              past = rw (last?-none (xrange store) e) tt;
            })
      | inr (l, e) ↦
          rw (redis.xrevrange_last store, e)
            (record {
              known = record {
                valid = All-last _ (xrange store) l v e;
                bound = λ id h p. after_last d (xrange store) l id e h;
              };
              past = none_after_last d (xrange store) l o e;
            })
    ]
