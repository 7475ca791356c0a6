-- ===== src/Chat/Turn/Inv.antt =====
-- What holds between two steps: at most one turn is under way, it holds the flag, and the stream
-- after the flag's cursor ends with what the turn has written.
use fifa_world_cup_ai_agent.Prelude.{
  ◌≡◌, sym, ap, subst, ◌∙◌, true, some, List, [], ◌∷◌, ◌++◌, append_assoc, map, map-append, All,
}
use fifa_world_cup_ai_agent.Chat.Cursor.{is_stream_cursor, stream_cursor_origin}
use fifa_world_cup_ai_agent.Chat.Cursor.Laws.{Precedes}
use fifa_world_cup_ai_agent.Chat.Stream.{
  Digits, EntryId, StreamFields, Entry, Redis, later, IsOrdered,
}
use fifa_world_cup_ai_agent.Chat.Stream.Order.{later-append, later-All}
use fifa_world_cup_ai_agent.Chat.Turn.{Request, Holder, written, System}

abbrev pub fields_of : Entry → StreamFields
fields_of e = e.1

All-prefix : (P : Entry → Type 0) (xs ys : List Entry) → All P (xs ++ ys) → All P xs
All-prefix P [] ys h = tt
All-prefix P (x ∷ xs) ys h = (h.0, All-prefix P xs ys h.1)

module _ (d : Digits) where
  -- A cursor that every entry still to come is after.
  pub record Known (es : List Entry) (c : EntryId) : Type 0 where
    pub valid : is_stream_cursor d.digit c ≡ true
    pub bound :
        (id : EntryId)
        → All (λ (e : Entry). Precedes d.digit e.0 id) es
        → Precedes d.digit stream_cursor_origin id
        → Precedes d.digit c id

  pub Known-append : (xs ys : List Entry) (c : EntryId) → Known xs c → Known (xs ++ ys) c
  Known-append xs ys c k = record {
    valid = k.valid;
    bound = λ id h p. k.bound id (All-prefix _ xs ys h) p;
  }

module _ (d : Digits) (redis : Redis d) where
  open redis use {Store, get, xrange, xadd}

  -- What a reader of the cursor `c` is sent at once.
  abbrev pub read_after : EntryId → Store → List StreamFields
  read_after c store = map fields_of (later d c (xrange store))

  -- The turn `h` holds the flag, and the stream after the flag's cursor ends with its entries.
  pub record Held (store : Store) (h : Holder) : Type 0 where
    pub cursor : EntryId
    pub flag : get store ≡ some cursor
    pub known : Known d (xrange store) cursor
    pub earlier : List StreamFields
    pub seen : read_after cursor store ≡ earlier ++ written h

  abbrev pub Holds : Store → List Holder → Type 0
  Holds store [] = Unit
  Holds store (h ∷ []) = Held store h
  Holds store (h ∷ g ∷ hs) = ⊥

  abbrev pub Waits : List Entry → List (Request × EntryId) → Type 0
  Waits es ws = All (λ (w : Request × EntryId). Known d es w.1) ws

  pub record Inv (s : System d redis) : Type 0 where
    pub ordered : IsOrdered d (xrange s.store)
    pub valid_ids : All (λ (e : Entry). is_stream_cursor d.digit e.0 ≡ true) (xrange s.store)
    pub waits : Waits (xrange s.store) s.waiting
    pub holds : Holds s.store s.holders

  -- A command that keeps the flag and the entries keeps the hold of a turn that has written as much.
  pub Held-keep :
      (a b : Store) (h g : Holder)
      → get b ≡ get a
      → xrange b ≡ xrange a
      → written g ≡ written h
      → Held a h
      → Held b g
  Held-keep a b h g p q w k = record {
    cursor = k.cursor;
    flag = p ∙ k.flag;
    known = subst (λ es. Known d es k.cursor) (sym q) k.known;
    earlier = k.earlier;
    seen =
        ap (λ es. map fields_of (later d k.cursor es)) q
        ∙ k.seen
        ∙ ap (λ l. k.earlier ++ l) (sym w);
  }

  -- What is added is read after a known cursor, behind what was read before.
  read_after-xadd :
      (f : StreamFields) (s : Store) (c : EntryId)
      → Known d (xrange s) c
      → read_after c (xadd f s) ≡ read_after c s ++ f ∷ []
  read_after-xadd f s c k =
      let a = redis.xadd_entries f s in
      let x : List Entry = (a.id, f) ∷ [] in
      ap (λ es. map fields_of (later d c es)) a.entries
      ∙ ap (map fields_of) (later-append d c (xrange s) x)
      ∙ ap (λ l. map fields_of (later d c (xrange s) ++ l))
          (later-All d c x (k.bound a.id a.last a.positive, tt))
      ∙ map-append fields_of (later d c (xrange s)) x

  -- An entry that is added for a turn is one more of its entries.
  pub Held-xadd :
      (f : StreamFields) (s : Store) (h g : Holder)
      → written g ≡ written h ++ f ∷ []
      → Held s h
      → Held (xadd f s) g
  Held-xadd f s h g w k =
      let a = redis.xadd_entries f s in
      record {
        cursor = k.cursor;
        flag = redis.get-xadd f s ∙ k.flag;
        known =
            subst (λ es. Known d es k.cursor) (sym a.entries)
              (Known-append d (xrange s) ((a.id, f) ∷ []) k.cursor k.known);
        earlier = k.earlier;
        seen =
            read_after-xadd f s k.cursor k.known
            ∙ ap (λ l. l ++ f ∷ []) k.seen
            ∙ append_assoc k.earlier (written h) (f ∷ [])
            ∙ ap (λ l. k.earlier ++ l) (sym w);
      }

  pub Waits-xadd :
      (f : StreamFields) (s : Store) (ws : List (Request × EntryId))
      → Waits (xrange s) ws
      → Waits (xrange (xadd f s)) ws
  Waits-xadd f s [] h = tt
  Waits-xadd f s (w ∷ ws) h =
      let a = redis.xadd_entries f s in
      (
        subst (λ es. Known d es w.1) (sym a.entries)
            (Known-append d (xrange s) ((a.id, f) ∷ []) w.1 h.0),
        Waits-xadd f s ws h.1,
      )
