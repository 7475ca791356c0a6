-- ===== src/Chat/Turn/Replay.antt =====
-- What a reader that attaches to a conversation is sent, and what a request that fails after its
-- reservation leaves behind.
use fifa_world_cup_ai_agent.Prelude.{
  ◌≡◌, refl, ap, subst, ◌∙◌, sym, true, false, none, some, List, [], ◌∷◌, ◌++◌, map, All,
  Option-cases, inl, inr,
}
use fifa_world_cup_ai_agent.Chat.Stream.{
  Digits, EntryId, StreamFields, Redis, later, last_stream_cursor, resume_turn_cursor,
}
use fifa_world_cup_ai_agent.Chat.Stream.Order.{later-none}
use fifa_world_cup_ai_agent.Chat.Turn.{
  Request, Holder, reserved, persisted, announced, queued, running, failed, written, in_endpoint,
  System, look, reserve, hand_over, lapse_turn_stream, Step, looked, tried, persists, announces,
  enqueues, abandons, starts, publishes, fails, records, finishes, flag_lapses, stream_lapses,
  KeepsFlag, IsOnTime, IsFlagKept, Reach, here, next,
}
use fifa_world_cup_ai_agent.Chat.Turn.Tail.{last_stream_cursor-IsTail}
use fifa_world_cup_ai_agent.Chat.Turn.Inv.{fields_of, Known, Held, Holds, Inv}
use fifa_world_cup_ai_agent.Chat.Turn.Moves.{not_empty}
use fifa_world_cup_ai_agent.Chat.Turn.Guard.{Reach-Inv}

module _ (d : Digits) (redis : Redis d) where
  open redis use {Store, get, xrange, xread, set_nx}

  Held-resume :
      (s : Store) (h : Holder) (k : Held d redis s h) → resume_turn_cursor d redis s ≡ k.cursor
  unfolding resume_turn_cursor
  Held-resume s h k = rw (k.flag, k.known.valid)

  -- In a run in which no key expires that a turn or a waiting request still needs, a reader that
  -- attaches while a turn is under way misses nothing of it: what it reads ends with what the turn
  -- has written, its user message and then every event that its job has published.
  pub resume-written :
      {s u : System d redis} (h : Holder)
      → Inv d redis s
      → (p : Reach d redis s u) → IsOnTime d redis p
      → u.holders ≡ h ∷ []
      → (earlier : List StreamFields) × (map fields_of
            (xread (resume_turn_cursor d redis u.store) u.store)
          ≡ earlier ++ written h)
  resume-written {u} h i p t e =
      let k = subst (Holds d redis u.store) e (Reach-Inv d redis i p t).holds in
      (
        k.earlier,
        ap (λ c. map fields_of (xread c u.store)) (Held-resume u.store h k)
            ∙ ap (map fields_of) (redis.xread_later k.cursor u.store)
            ∙ k.seen,
      )

  taken-resume :
      (c : EntryId) (s : Store)
      → Known d (xrange s) c
      → (set_nx c s).0 ≡ true
      → xread (resume_turn_cursor d redis (set_nx c s).1) (set_nx c s).1 ≡ later d c (xrange s)
  unfolding resume_turn_cursor
  taken-resume c s k e = elim (Option-cases (get s)) [
    | inl n ↦
        rw ((redis.set_nx_free c s n).1, k.valid)
          (redis.xread_later c (set_nx c s).1 ∙ ap (later d c) (redis.set_nx_entries c s))
    | inr (b, n) ↦ cc (e, (redis.set_nx_held c b s n).0)
  ]

  -- In a run in which no key expires that a turn or a waiting request still needs, right after a
  -- reservation a reader is sent what came after the cursor that the request had read: nothing, if
  -- that is still the stream's tail.
  pub resume-reserve :
      {s u : System d redis} (r : Request) (c : EntryId) (waiting : List (Request × EntryId))
      → Inv d redis s
      → (p : Reach d redis s u) → IsOnTime d redis p
      → u.waiting ≡ (r, c) ∷ waiting
      → (reserve d redis r c waiting u).0 ≡ true
      → let store = (reserve d redis r c waiting u).1.store in
        (xread (resume_turn_cursor d redis store) store ≡ later d c (xrange u.store))
        × (c ≡ last_stream_cursor d redis u.store
            → xread (resume_turn_cursor d redis store) store ≡ [])
  unfolding reserve
  resume-reserve {u} r c waiting i p t w e =
      let k = Reach-Inv d redis i p t in
      let known =
        (subst (All (λ (w : Request × EntryId). Known d (xrange u.store) w.1)) w k.waits).0 in
      let read = taken-resume c u.store known e in
      let tail = last_stream_cursor-IsTail d redis u.store k.ordered k.valid_ids in
      (
        read,
        λ q.
            read
            ∙ ap (λ b. later d b (xrange u.store)) q
            ∙ later-none d (last_stream_cursor d redis u.store) (xrange u.store) tail.past,
      )

  -- In a run in which no key expires that a turn or a waiting request still needs, a reader that
  -- attaches while no flag is set reads nothing of what is already in the stream.
  pub resume_idle :
      {s u : System d redis}
      → Inv d redis s
      → (p : Reach d redis s u) → IsOnTime d redis p
      → get u.store ≡ none
      → xread (resume_turn_cursor d redis u.store) u.store ≡ []
  unfolding resume_turn_cursor
  resume_idle {u} i p t e =
      let k = Reach-Inv d redis i p t in
      let c = last_stream_cursor d redis u.store in
      rw e (
        redis.xread_later c u.store
        ∙ later-none d c (xrange u.store)
            (last_stream_cursor-IsTail d redis u.store k.ordered k.valid_ids).past)

  -- No turn is under way, and the flag is set.
  abbrev IsStuck : System d redis → Type 0
  IsStuck s = (s.holders ≡ []) × (b : EntryId) × (get s.store ≡ some b)

  no_turn :
      {A : Type 0} (s : System d redis) (before : List Holder) (h : Holder) (after : List Holder)
      → IsStuck s
      → s.holders ≡ before ++ h ∷ after
      → A
  no_turn s before h after k e = absurd (not_empty before h after (sym e ∙ k.0))

  reserve-IsStuck :
      (q : Request) (c : EntryId) (waiting : List (Request × EntryId)) (s : System d redis)
      → IsStuck s
      → ((reserve d redis q c waiting s).0 ≡ false) × IsStuck (reserve d redis q c waiting s).1
  unfolding reserve
  reserve-IsStuck q c waiting s (e, b, f) =
      let held = redis.set_nx_held c b s.store f in (held.0, (rw held.0 e, b, held.1))

  Step-IsStuck :
      {s u : System d redis} (st : Step d redis s u) → KeepsFlag d redis st → IsStuck s → IsStuck u
  unfolding look lapse_turn_stream
  Step-IsStuck (looked s r) t k = k
  Step-IsStuck (tried s before after r c e) t k = (reserve-IsStuck r c (before ++ after) s k).1
  Step-IsStuck (persists s before after r e) t k = no_turn s before (reserved r) after k e
  Step-IsStuck (announces s before after r e) t k = no_turn s before (persisted r) after k e
  Step-IsStuck (enqueues s before after r e) t k = no_turn s before (announced r) after k e
  Step-IsStuck (abandons s before after h b e) t k = no_turn s before h after k e
  Step-IsStuck (starts s before after r e) t k = no_turn s before (queued r) after k e
  Step-IsStuck (publishes s before after r sent event e) t k =
      no_turn s before (running r sent) after k e
  Step-IsStuck (fails s before after r sent error e) t k =
      no_turn s before (running r sent) after k e
  Step-IsStuck (records s before after r sent detail e) t k =
      no_turn s before (failed r sent) after k e
  Step-IsStuck (finishes s before after h b e) t k = no_turn s before h after k e
  Step-IsStuck (flag_lapses s) t k = absurd t
  Step-IsStuck (stream_lapses s) t (e, b, f) = (e, b, redis.get-lapse_stream s.store ∙ f)

  Reach-IsStuck :
      {s u : System d redis}
      → IsStuck s
      → (p : Reach d redis s u) → IsFlagKept d redis p
      → IsStuck u
  Reach-IsStuck k here t = k
  Reach-IsStuck k (next r st) (t, v) = Step-IsStuck st v (Reach-IsStuck k r t)

  -- In a run in which no key expires that a turn or a waiting request still needs, a request that
  -- fails between its reservation and the enqueueing of its job leaves no turn under way and the
  -- flag set: until the flag expires no turn is under way, whatever comes, and every send is
  -- refused.
  pub abandon_refuses :
      {s u v : System d redis} (h : Holder)
      → Inv d redis s
      → (p : Reach d redis s u) → IsOnTime d redis p
      → u.holders ≡ h ∷ []
      → in_endpoint h ≡ true
      → (q : Reach d redis (hand_over d redis [] u) v) → IsFlagKept d redis q
      → (v.holders ≡ [])
        × ((r : Request) (c : EntryId) (waiting : List (Request × EntryId))
            → (reserve d redis r c waiting v).0 ≡ false)
  unfolding hand_over
  abandon_refuses {u} {v} h i p t e b q f =
      let k = subst (Holds d redis u.store) e (Reach-Inv d redis i p t).holds in
      let stuck = Reach-IsStuck (refl, k.cursor, k.flag) q f in
      (stuck.0, λ r c waiting. (reserve-IsStuck r c waiting v stuck).0)
