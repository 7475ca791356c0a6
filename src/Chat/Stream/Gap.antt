-- ===== src/Chat/Stream/Gap.antt =====
-- The gaps of `stream_cursor_has_gap`.
use fifa_world_cup_ai_agent.Prelude.{
  ◌≡◌, ◌≢◌, refl, ap, sym, ◌∙◌, true, false, Bool-cases, inl, inr, Option, none, some, List, [],
  ◌∷◌, last?, list_beq, nat_eq, if◌then◌else◌,
}
use fifa_world_cup_ai_agent.Chat.Cursor.{stream_cursor_origin}
use fifa_world_cup_ai_agent.Chat.Stream.{
  Digits, Entry, IsOrdered, Redis, last_stream_cursor, stream_cursor_has_gap, gap_before,
  id_or_origin,
}
use fifa_world_cup_ai_agent.Chat.Stream.Order.{none_after_last}

module _ (d : Digits) (redis : Redis d) where
  open redis use {Store, xrange, xrevrange_last}

  first_not_after :
      (xs : List Entry) (l : Entry)
      → IsOrdered d xs
      → last? xs ≡ some l
      → gap_before d redis l.0 xs ≢ some true
  first_not_after [] l o e h = cc h
  first_not_after (x ∷ xs) l o e h = (none_after_last d (x ∷ xs) l o e).0 h

  after_last :
      (s : Store) (o : Option Entry)
      → IsOrdered d (xrange s)
      → last? (xrange s) ≡ o
      → (if list_beq (id_or_origin d redis o) stream_cursor_origin
          then some false
          else gap_before d redis (id_or_origin d redis o) (xrange s))
        ≢ some true
  after_last s none ordered e h = cc h
  after_last s (some l) ordered e h = elim (Bool-cases (list_beq l.0 stream_cursor_origin)) [
    | inl b ↦ cc (h, ap (λ t. if t then some false else gap_before d redis l.0 (xrange s)) b)
    | inr b ↦
        first_not_after (xrange s) l ordered e
          (sym (ap (λ t. if t then some false else gap_before d redis l.0 (xrange s)) b) ∙ h)
  ]

  -- A reader at the end of an ordered stream, whole or trimmed, has no gap.
  pub last_stream_cursor-has_gap :
      (s : Store)
      → IsOrdered d (xrange s)
      → stream_cursor_has_gap d redis (last_stream_cursor d redis s) s ≢ some true
  unfolding stream_cursor_has_gap last_stream_cursor
  last_stream_cursor-has_gap s ordered h = after_last s (last? (xrange s)) ordered refl (
      sym (
        ap
          (λ o.
            if list_beq (id_or_origin d redis o) stream_cursor_origin
            then some false
            else gap_before d redis (id_or_origin d redis o) (xrange s))
          (xrevrange_last s))
      ∙ h)
