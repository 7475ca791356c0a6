-- ===== src/Chat/Turn/Moves.antt =====
-- How the invariant of the turns goes through a reservation, an entry of the stream, a step that
-- writes nothing, and the end of a turn.
use fifa_world_cup_ai_agent.Prelude.{
  ℕ, ◌≡◌, refl, sym, subst, ◌∙◌, inl, inr, true, Option-cases, List, [], ◌∷◌, ◌++◌, append-nil, All,
  All-append, if◌then◌else◌, String,
}
use fifa_world_cup_ai_agent.Chat.Cursor.{is_stream_cursor}
use fifa_world_cup_ai_agent.Chat.Stream.{Digits, EntryId, StreamFields, Entry, Redis, IsOrdered}
use fifa_world_cup_ai_agent.Chat.Stream.Order.{Added-IsOrdered}
use fifa_world_cup_ai_agent.Chat.Turn.{
  Request, Holder, reserved, written, System, look, reserve, publish,
}
use fifa_world_cup_ai_agent.Chat.Turn.Tail.{last_stream_cursor-IsTail}
use fifa_world_cup_ai_agent.Chat.Turn.Inv.{
  Known, read_after, Held, Holds, Waits, Inv, Held-keep, Held-xadd, Waits-xadd,
}

-- A list of one that is split around an element is that element.
single :
    (before : List Holder) (h : Holder) (after : List Holder) (g : Holder)
    → before ++ h ∷ after ≡ g ∷ []
    → (before ≡ []) × (h ≡ g) × (after ≡ [])
single [] h after g e = (refl, cc, cc)
single (x ∷ []) h after g e = cc
single (x ∷ y ∷ before) h after g e = cc

pub not_empty :
    (before : List Holder) (h : Holder) (after : List Holder) → before ++ h ∷ after ≡ [] → ⊥
not_empty [] h after e = cc
not_empty (x ∷ before) h after e = cc

module _ (d : Digits) (redis : Redis d) where
  open redis use {Store, get, xrange, xadd, set_nx}

  pub sole :
      (store : Store) (hs before after : List Holder) (h : Holder)
      → Holds d redis store hs
      → hs ≡ before ++ h ∷ after
      → (before ≡ []) × (after ≡ []) × Held d redis store h
  sole store [] before after h k e = absurd (not_empty before h after (sym e))
  sole store (g ∷ []) before after h k e =
      let (p, q, r) = single before h after g (sym e) in
      (p, r, subst (Held d redis store) (sym q) k)
  sole store (g ∷ i ∷ hs) before after h k e = absurd k

  Holds-one :
      (store : Store) (before after : List Holder) (g : Holder)
      → before ≡ []
      → after ≡ []
      → Held d redis store g
      → Holds d redis store (before ++ g ∷ after)
  Holds-one store before after g p q k = rw (p, q) k

  Holds-none :
      (store : Store) (before after : List Holder)
      → before ≡ []
      → after ≡ []
      → Holds d redis store (before ++ after)
  Holds-none store before after p q = rw (p, q) tt

  -- The entries of a store and of the store after an XADD are ordered and have valid ids.
  abbrev pub IsLog : List Entry → Type 0
  IsLog es = IsOrdered d es × All (λ (e : Entry). is_stream_cursor d.digit e.0 ≡ true) es

  pub xadd-IsLog : (f : StreamFields) (s : Store) → IsLog (xrange s) → IsLog (xrange (xadd f s))
  xadd-IsLog f s (o, v) =
      let a = redis.xadd_entries f s in
      (
        Added-IsOrdered d f (xrange s) (xrange (xadd f s)) o a,
        rw a.entries (
            All-append (λ (e : Entry). is_stream_cursor d.digit e.0 ≡ true) (xrange s)
              ((a.id, f) ∷ []) v (a.valid, tt)),
      )

  pub Inv-IsLog : (s : System d redis) → Inv d redis s → IsLog (xrange s.store)
  Inv-IsLog s i = (i.ordered, i.valid_ids)

  -- The turn moves on; it stays the only one.
  pub move-Inv :
      (s : System d redis) (store : Store) (messages failures : List (ℕ × String))
      (before after : List Holder) (g : Holder)
      → (before ≡ []) × (after ≡ [])
      → IsLog (xrange store)
      → Waits d redis (xrange store) s.waiting
      → Held d redis store g
      → Inv d redis (record {
        store = store;
        messages = messages;
        waiting = s.waiting;
        holders = before ++ g ∷ after;
        failures = failures;
      })
  move-Inv s store messages failures before after g (p, q) (o, v) w k = record {
    ordered = o;
    valid_ids = v;
    waits = w;
    holds = Holds-one store before after g p q k;
  }

  pub look-Inv : (r : Request) (s : System d redis) → Inv d redis s → Inv d redis (look d redis r s)
  unfolding look
  look-Inv r s i = record {
    ordered = i.ordered;
    valid_ids = i.valid_ids;
    waits =
        All-append (λ (w : Request × EntryId). Known d (xrange s.store) w.1) s.waiting _ i.waits
          ((last_stream_cursor-IsTail d redis s.store i.ordered i.valid_ids).known, tt);
    holds = i.holds;
  }

  -- A reservation succeeds only with no turn under way, and then the new turn holds the flag.
  reserve-Holds :
      (r : Request) (c : EntryId) (store : Store) (hs : List Holder)
      → Known d (xrange store) c
      → Holds d redis store hs
      → let (done, after) = set_nx c store in
        Holds d redis after (if done then hs ++ reserved r ∷ [] else hs)
  reserve-Holds r c store [] t k = elim (Option-cases (get store)) [
    | inl e ↦
        let (p, q) = redis.set_nx_free c store e in
        rw p (record {
          cursor = c;
          flag = q;
          known = subst (λ es. Known d es c) (sym (redis.set_nx_entries c store)) t;
          earlier = read_after d redis c (set_nx c store).1;
          seen = sym (append-nil (read_after d redis c (set_nx c store).1));
        })
    | inr (b, e) ↦ rw (redis.set_nx_held c b store e).0 tt
  ]
  reserve-Holds r c store (h ∷ []) t k =
      let (p, q) = redis.set_nx_held c k.cursor store k.flag in
      rw p (
        Held-keep d redis store (set_nx c store).1 h h (q ∙ sym k.flag)
          (redis.set_nx_entries c store) refl k)
  reserve-Holds r c store (h ∷ g ∷ hs) t k = absurd k

  All-drop :
      (P : Request × EntryId → Type 0) (before after : List (Request × EntryId))
      (w : Request × EntryId)
      → All P (before ++ w ∷ after)
      → P w × All P (before ++ after)
  All-drop P [] after w h = h
  All-drop P (v ∷ before) after w h = let (p, q) = All-drop P before after w h.1 in (p, (h.0, q))

  pub reserve-Inv :
      (s : System d redis) (before after : List (Request × EntryId)) (r : Request) (c : EntryId)
      → s.waiting ≡ before ++ (r, c) ∷ after
      → Inv d redis s
      → Inv d redis (reserve d redis r c (before ++ after) s).1
  unfolding reserve
  reserve-Inv s before after r c e i =
      let entries = sym (redis.set_nx_entries c s.store) in
      let l = subst IsLog entries (Inv-IsLog s i) in
      let (known, rest) =
        All-drop _ before after (r, c) (subst (Waits d redis (xrange s.store)) e i.waits) in
      record {
        ordered = l.0;
        valid_ids = l.1;
        waits = subst (λ es. Waits d redis es (before ++ after)) entries rest;
        holds = reserve-Holds r c s.store s.holders known i.holds;
      }

  -- The end of a turn leaves none under way.
  pub end-Inv :
      (s : System d redis) (store : Store) (messages failures : List (ℕ × String))
      (before after : List Holder)
      → (before ≡ []) × (after ≡ [])
      → IsLog (xrange store)
      → Waits d redis (xrange store) s.waiting
      → Inv d redis (record {
        store = store;
        messages = messages;
        waiting = s.waiting;
        holders = before ++ after;
        failures = failures;
      })
  end-Inv s store messages failures before after (p, q) (o, v) w = record {
    ordered = o;
    valid_ids = v;
    waits = w;
    holds = Holds-none store before after p q;
  }

  pub finished_entries : (s : Store) → xrange (redis.expire_stream (redis.delete_flag s)) ≡ xrange s
  finished_entries s =
      redis.expire_stream_entries (redis.delete_flag s) ∙ redis.delete_flag_entries s

  -- A step that leaves the store as it is moves the turn on.
  pub rest-Inv :
      (s : System d redis) (messages failures : List (ℕ × String)) (before after : List Holder)
      (h g : Holder)
      → s.holders ≡ before ++ h ∷ after
      → written g ≡ written h
      → Inv d redis s
      → Inv d redis (record {
        store = s.store;
        messages = messages;
        waiting = s.waiting;
        holders = before ++ g ∷ after;
        failures = failures;
      })
  rest-Inv s messages failures before after h g e w i =
      let (p, q, k) = sole s.store s.holders before after h i.holds e in
      move-Inv s s.store messages failures before after g (p, q) (Inv-IsLog s i) i.waits
        (Held-keep d redis s.store s.store h g refl refl w k)

  -- A step that writes one entry moves the turn on.
  pub publish-Inv :
      (s : System d redis) (before after : List Holder) (event : StreamFields) (h g : Holder)
      → s.holders ≡ before ++ h ∷ after
      → written g ≡ written h ++ event ∷ []
      → Inv d redis s
      → Inv d redis (publish d redis event (before ++ g ∷ after) s)
  unfolding publish
  publish-Inv s before after event h g e w i =
      let (p, q, k) = sole s.store s.holders before after h i.holds e in
      move-Inv s _ _ _ before after g (p, q) (xadd-IsLog event s.store (Inv-IsLog s i))
        (Waits-xadd d redis event s.store s.waiting i.waits)
        (Held-xadd d redis event s.store h g w k)
