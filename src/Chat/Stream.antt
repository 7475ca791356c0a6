-- ===== src/Chat/Stream.antt =====
-- The turn stream and the in-progress flag of one conversation in Redis, and the functions of
-- backend/src/infra/task_queue/chat_streams.py that read them. Redis is a parameter: its commands
-- on the two keys, with what its documentation says of them.
pub mod Order
pub mod Gap
use fifa_world_cup_ai_agent.Prelude.{
  ℕ, String, ◌≡◌, Bool, true, false, Option, none, some, List, [], ◌∷◌, ◌++◌, if◌then◌else◌, last?,
  All, list_beq, nat_eq,
}
use fifa_world_cup_ai_agent.Chat.Cursor.{
  hyphen, stream_cursor_origin, is_stream_cursor, stream_cursor_precedes,
}
use fifa_world_cup_ai_agent.Chat.Cursor.Laws.{Precedes}

-- Python's decimal digits: a hyphen is none, and "0" is zero.
pub record Digits : Type 0 where
  pub digit : ℕ → Option ℕ
  pub hyphen_none : digit hyphen ≡ none
  pub zero_digit : digit 48 ≡ some 0

-- The id of an entry, as a text.
abbrev pub EntryId : Type 0
EntryId = List ℕ

-- The two fields of an entry: `event_type` and the JSON text `payload`.
abbrev pub StreamFields : Type 0
StreamFields = String × String

abbrev pub Entry : Type 0
Entry = EntryId × StreamFields

module _ (d : Digits) where
  abbrev pub is_later : EntryId → EntryId → Bool
  is_later c id = elim (stream_cursor_precedes d.digit c id) [ none ↦ false | some b ↦ b ]

  -- The entries after a cursor.
  abbrev pub later : EntryId → List Entry → List Entry
  later c [] = []
  later c (e ∷ es) = let rest = later c es in if is_later c e.0 then e ∷ rest else rest

  -- Every entry comes before all that follow it.
  abbrev pub IsOrdered : List Entry → Type 0
  IsOrdered [] = Unit
  IsOrdered (e ∷ es) = All (λ (f : Entry). Precedes d.digit e.0 f.0) es × IsOrdered es

  -- What XADD did to the entries: one more, whose id is a cursor after all others and after "0-0".
  pub record Added (f : StreamFields) (old new : List Entry) : Type 0 where
    pub id : EntryId
    pub entries : new ≡ old ++ (id, f) ∷ []
    pub valid : is_stream_cursor d.digit id ≡ true
    pub last : All (λ (e : Entry). Precedes d.digit e.0 id) old
    pub positive : Precedes d.digit stream_cursor_origin id

  -- The commands on the two keys. `set_nx` is `SET key value NX EX ttl`, and `expire_flag` and
  -- `expire_stream` only move a key's expiry.
  pub record Redis : Type 1 where
    pub Store : Type 0
    pub get : Store → Option EntryId
    pub xrange : Store → List Entry
    pub set_nx : EntryId → Store → Bool × Store
    pub delete_flag : Store → Store
    pub expire_flag : Store → Store
    pub expire_stream : Store → Store
    pub lapse_stream : Store → Store
    pub xadd : StreamFields → Store → Store
    pub xrevrange_one : Store → Option Entry
    pub xread : EntryId → Store → List Entry
    pub set_nx_free :
        (c : EntryId) (s : Store)
        → get s ≡ none
        → ((set_nx c s).0 ≡ true) × (get (set_nx c s).1 ≡ some c)
    pub set_nx_held :
        (c b : EntryId) (s : Store)
        → get s ≡ some b
        → ((set_nx c s).0 ≡ false) × (get (set_nx c s).1 ≡ some b)
    pub set_nx_entries : (c : EntryId) (s : Store) → xrange (set_nx c s).1 ≡ xrange s
    pub get-delete_flag : (s : Store) → get (delete_flag s) ≡ none
    pub delete_flag_entries : (s : Store) → xrange (delete_flag s) ≡ xrange s
    pub get-expire_flag : (s : Store) → get (expire_flag s) ≡ get s
    pub expire_flag_entries : (s : Store) → xrange (expire_flag s) ≡ xrange s
    pub get-expire_stream : (s : Store) → get (expire_stream s) ≡ get s
    pub expire_stream_entries : (s : Store) → xrange (expire_stream s) ≡ xrange s
    pub get-lapse_stream : (s : Store) → get (lapse_stream s) ≡ get s
    pub lapse_stream_entries : (s : Store) → xrange (lapse_stream s) ≡ []
    pub get-xadd : (f : StreamFields) (s : Store) → get (xadd f s) ≡ get s
    pub xadd_entries : (f : StreamFields) (s : Store) → Added f (xrange s) (xrange (xadd f s))
    pub xrevrange_last : (s : Store) → xrevrange_one s ≡ last? (xrange s)
    pub xread_later : (c : EntryId) (s : Store) → xread c s ≡ later c (xrange s)

  module _ (redis : Redis) where
    open redis use {Store, get, xrange, xrevrange_one}

    abbrev pub id_or_origin : Option Entry → EntryId
    id_or_origin none = stream_cursor_origin
    id_or_origin (some e) = e.0

    unfoldable pub last_stream_cursor : Store → EntryId
    last_stream_cursor s = id_or_origin (xrevrange_one s)

    abbrev resume_from : Option EntryId → Store → EntryId
    resume_from none s = last_stream_cursor s
    resume_from (some stored) s =
        if is_stream_cursor d.digit stored then stored else last_stream_cursor s

    -- Where a newly attached reader starts.
    unfoldable pub resume_turn_cursor : Store → EntryId
    unfolding last_stream_cursor
    resume_turn_cursor s = resume_from (get s) s

    abbrev pub gap_before : EntryId → List Entry → Option Bool
    gap_before cursor [] = some false
    gap_before cursor (e ∷ es) = stream_cursor_precedes d.digit cursor e.0

    -- Whether entries after the cursor are gone; `none` is the `ValueError` of a malformed cursor.
    unfoldable pub stream_cursor_has_gap : EntryId → Store → Option Bool
    stream_cursor_has_gap cursor s =
        if list_beq cursor stream_cursor_origin then some false else gap_before cursor (xrange s)
