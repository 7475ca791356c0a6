-- ===== src/Chat/Turn/Tests.antt =====
-- A Redis of numbered entries, one turn on it, and the theorems of this folder at that turn.
use fifa_world_cup_ai_agent.Prelude.{
  ℕ, suc, ◌+◌, ◌-◌, ◌≤◌, ◌≡◌, refl, ap, subst, ◌∙◌, Bool, true, false, Option, none, some, List, [],
  ◌∷◌, ◌++◌, map, last?, All, length, arith, ◌==◌, if◌then◌else◌,
}
use fifa_world_cup_ai_agent.Chat.Cursor.{
  is_stream_cursor, stream_cursor_origin, cursor_parts, stream_cursor_precedes,
}
use fifa_world_cup_ai_agent.Chat.Cursor.Laws.{Precedes}
use fifa_world_cup_ai_agent.Chat.Stream.{
  Digits, EntryId, StreamFields, Entry, Redis, later, last_stream_cursor, resume_turn_cursor,
}
use fifa_world_cup_ai_agent.Chat.Turn.{
  Request, reserved, persisted, announced, queued, running, System, look, reserve, persist,
  hand_over, start, publish, looked, tried, persists, announces, enqueues, starts, publishes, Reach,
  here, next, Step, KeepsTime, IsOnTime, lapse_flag, flag_lapses,
}
use fifa_world_cup_ai_agent.Chat.Turn.Inv.{fields_of, Inv}
use fifa_world_cup_ai_agent.Chat.Turn.Guard.{one_turn}
use fifa_world_cup_ai_agent.Chat.Turn.Replay.{
  resume-written, resume-reserve, resume_idle, abandon_refuses,
}

-- A digit is any code but the hyphen's, so that one character can number an entry.
abbrev digits : Digits
digits = record {
  digit = λ c. if c == 45 then none else some (c - 48);
  hyphen_none = refl;
  zero_digit = refl;
}

abbrev id_at : ℕ → EntryId
id_at n = (n + 49) ∷ 45 ∷ 48 ∷ []

abbrev number_from : ℕ → List StreamFields → List Entry
number_from k [] = []
number_from k (f ∷ fs) = (id_at k, f) ∷ number_from (suc k) fs

abbrev Keys : Type 0
Keys = Option EntryId × List StreamFields

id_at-parts : (n : ℕ) → cursor_parts digits.digit (id_at n) ≡ some (n + 1, 0)
unfolding cursor_parts
id_at-parts n = ground arith

id_at-valid : (n : ℕ) → is_stream_cursor digits.digit (id_at n) ≡ true
unfolding is_stream_cursor
id_at-valid n = ground arith

id_at-Precedes : (m n : ℕ) → suc m ≤ n → Precedes digits.digit (id_at m) (id_at n)
unfolding stream_cursor_precedes
id_at-Precedes m n h = rw (id_at-parts m, id_at-parts n) (ground arith)

origin-Precedes : (n : ℕ) → Precedes digits.digit stream_cursor_origin (id_at n)
unfolding stream_cursor_precedes
origin-Precedes n = rw (id_at-parts n) (unfold cursor_parts in ground arith)

zero-add_lem : (n : ℕ) → 0 + n ≡ n
zero-add_lem n = omega arith

number-snoc :
    (k : ℕ) (fs : List StreamFields) (f : StreamFields)
    → number_from k (fs ++ f ∷ []) ≡ number_from k fs ++ (id_at (k + length fs), f) ∷ []
number-snoc k [] f = ground arith
number-snoc k (g ∷ fs) f = ground (arith, number-snoc (suc k) fs f)

number-before :
    (k n : ℕ) (fs : List StreamFields)
    → k + length fs ≤ n
    → All (λ (e : Entry). Precedes digits.digit e.0 (id_at n)) (number_from k fs)
number-before k n [] h = tt
number-before k n (g ∷ fs) h =
    (id_at-Precedes k n (omega arith), number-before (suc k) n fs (omega arith))

abbrev keep_or_set : Option EntryId → EntryId → Option EntryId
keep_or_set none c = some c
keep_or_set (some b) c = some b

abbrev free : Option EntryId → Bool
free none = true
free (some b) = false

abbrev keys : Redis digits
keys = record {
  Store = Keys;
  get = λ s. s.0;
  xrange = λ s. number_from 0 s.1;
  set_nx = λ c s. (free s.0, (keep_or_set s.0 c, s.1));
  delete_flag = λ s. (none, s.1);
  expire_flag = λ s. s;
  expire_stream = λ s. s;
  lapse_stream = λ s. (s.0, []);
  xadd = λ f s. (s.0, s.1 ++ f ∷ []);
  xrevrange_one = λ s. last? (number_from 0 s.1);
  xread = λ c s. later digits c (number_from 0 s.1);
  set_nx_free = λ c s e. (ap free e, ap (λ o. keep_or_set o c) e);
  set_nx_held = λ c b s e. (ap free e, ap (λ o. keep_or_set o c) e);
  set_nx_entries = λ c s. refl;
  get-delete_flag = λ s. refl;
  delete_flag_entries = λ s. refl;
  get-expire_flag = λ s. refl;
  expire_flag_entries = λ s. refl;
  get-expire_stream = λ s. refl;
  expire_stream_entries = λ s. refl;
  get-lapse_stream = λ s. refl;
  lapse_stream_entries = λ s. refl;
  get-xadd = λ f s. refl;
  xadd_entries = λ f s. record {
    id = id_at (length s.1);
    entries =
        number-snoc 0 s.1 f
        ∙ ap (λ n. number_from 0 s.1 ++ (id_at n, f) ∷ []) (zero-add_lem (length s.1));
    valid = id_at-valid (length s.1);
    last = number-before 0 (length s.1) s.1 (omega arith);
    positive = origin-Precedes (length s.1);
  };
  xrevrange_last = λ s. refl;
  xread_later = λ c s. refl;
}

abbrev ask : Request
ask = record { message_id = 1; content = "hi"; user_event = ("UserMessageEvent", "{}") }

-- A stream with the entry of an earlier turn, and no turn under way.
abbrev at_rest : System digits keys
at_rest = record {
  store = (none, ("MessageDoneEvent", "{}") ∷ []);
  messages = [];
  waiting = [];
  holders = [];
  failures = [];
}

at_rest-Inv : Inv digits keys at_rest
at_rest-Inv = record { ordered = (tt, tt); valid_ids = (id_at-valid 0, tt); waits = tt; holds = tt }

abbrev at_look : System digits keys
at_look = record at_rest { waiting = (ask, id_at 0) ∷ [] }

abbrev at_reserved : System digits keys
at_reserved = record at_rest {
  store = (some (id_at 0), ("MessageDoneEvent", "{}") ∷ []);
  holders = reserved ask ∷ [];
}

look-at_rest : look digits keys ask at_rest ≡ at_look
unfolding look last_stream_cursor
look-at_rest = refl

-- A run on time from the state at rest.
abbrev Run : System digits keys → Type 0
Run u = (p : Reach digits keys at_rest u) × IsOnTime digits keys p

abbrev then_step :
    {u v : System digits keys}
    → Run u
    → (st : Step digits keys u v) → KeepsTime digits keys st
    → Run v
then_step (p, t) st k = (next p st, (t, k))

Reach-look : Run at_look
Reach-look = subst Run look-at_rest (then_step (here, tt) (looked at_rest ask) tt)

reserve-at_look : reserve digits keys ask (id_at 0) [] at_look ≡ (true, at_reserved)
unfolding reserve
reserve-at_look = refl

Reach-reserved : Run at_reserved
Reach-reserved =
    subst (λ (t : Bool × System digits keys). Run t.1) reserve-at_look
      (then_step Reach-look (tried at_look [] [] ask (id_at 0) refl) tt)

abbrev delta : StreamFields
delta = ("ContentDeltaEvent", "{}")

abbrev at_running : System digits keys
at_running = record {
  store = (some (id_at 0), ("MessageDoneEvent", "{}") ∷ ask.user_event ∷ delta ∷ []);
  messages = (1, "hi") ∷ [];
  waiting = [];
  holders = running ask (delta ∷ []) ∷ [];
  failures = [];
}

abbrev at_announced : System digits keys
at_announced = record {
  store = (some (id_at 0), ("MessageDoneEvent", "{}") ∷ ask.user_event ∷ []);
  messages = (1, "hi") ∷ [];
  waiting = [];
  holders = announced ask ∷ [];
  failures = [];
}

Reach-announced : Run at_announced
unfolding persist publish
Reach-announced =
    then_step (then_step Reach-reserved (persists at_reserved [] [] ask refl) tt)
      (announces (persist digits keys ask (persisted ask ∷ []) at_reserved) [] [] ask refl) tt

abbrev at_queued : System digits keys
at_queued = record at_announced { holders = queued ask ∷ [] }

Reach-queued : Run at_queued
unfolding hand_over
Reach-queued = then_step Reach-announced (enqueues at_announced [] [] ask refl) tt

Reach-running : Run at_running
unfolding start publish
Reach-running =
    then_step (then_step Reach-queued (starts at_queued [] [] ask refl) tt)
      (publishes (start digits keys (running ask [] ∷ []) at_queued) [] [] ask [] delta refl) tt

-- A job that is queued until its flag expires: the next send reserves a second turn.
late_job : (u : System digits keys) × Reach digits keys at_queued u × (length u.holders ≡ 2)
unfolding lapse_flag look reserve last_stream_cursor
late_job =
    let lapsed = lapse_flag digits keys at_queued in
    let seen = look digits keys ask lapsed in
    let c = last_stream_cursor digits keys lapsed.store in
    (
      (reserve digits keys ask c [] seen).1,
      next (next (next here (flag_lapses at_queued)) (looked lapsed ask))
          (tried seen [] [] ask c refl),
      refl,
    )

one_turn_example :
    (length at_running.holders ≤ 1)
    × ((r : Request) (c : EntryId) (waiting : List (Request × EntryId))
        → (reserve digits keys r c waiting at_running).0 ≡ true
        → at_running.holders ≡ [])
one_turn_example = one_turn digits keys at_rest-Inv Reach-running.0 Reach-running.1

resume-written_example :
    (earlier : List StreamFields) × (map fields_of
        (keys.xread (resume_turn_cursor digits keys at_running.store) at_running.store)
      ≡ earlier ++ ask.user_event ∷ delta ∷ [])
resume-written_example =
    resume-written digits keys (running ask (delta ∷ [])) at_rest-Inv Reach-running.0
      Reach-running.1 refl

resume-reserve_example :
    let store = (reserve digits keys ask (id_at 0) [] at_look).1.store in
    (keys.xread (resume_turn_cursor digits keys store) store
      ≡ later digits (id_at 0) (keys.xrange at_look.store))
    × (id_at 0 ≡ last_stream_cursor digits keys at_look.store
        → keys.xread (resume_turn_cursor digits keys store) store ≡ [])
resume-reserve_example =
    resume-reserve digits keys ask (id_at 0) [] at_rest-Inv Reach-look.0 Reach-look.1 refl
      (ap (λ t. t.0) reserve-at_look)

resume_idle_example : keys.xread (resume_turn_cursor digits keys at_rest.store) at_rest.store ≡ []
resume_idle_example = resume_idle digits keys at_rest-Inv here tt refl

-- After a failure in the endpoint another request looks and is refused.
abbrev at_dropped : System digits keys
at_dropped = hand_over digits keys [] at_announced

abandon_refuses_example :
    ((look digits keys ask at_dropped).holders ≡ [])
    × ((r : Request) (c : EntryId) (waiting : List (Request × EntryId))
        → (reserve digits keys r c waiting (look digits keys ask at_dropped)).0 ≡ false)
abandon_refuses_example =
    abandon_refuses digits keys (announced ask) at_rest-Inv Reach-announced.0 Reach-announced.1 refl
      refl (next here (looked at_dropped ask)) (tt, tt)
