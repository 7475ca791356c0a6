-- ===== src/Chat/Turn.antt =====
-- One conversation's turns, from the send endpoint to the end of the reply job: `send_message` of
-- backend/src/api/v1/chat/routers/conversation_router.py and `generate_chat_reply_task` of
-- backend/src/infra/task_queue/chat_tasks.py, as the steps of any number of requests and workers on
-- the shared Redis keys. A handler is cut at each call that it awaits, since another may run in
-- between; only the job's last two commands are one step, and the second just sets an expiry.
--
-- The keys expire: the flag 300 seconds after its reservation or the start of its job, whichever is
-- later, and the stream 900 seconds after the end of a turn. An expiry is a step that can come at any
-- time. A run is on time if the flag never expires under a turn, nor the stream under a turn or
-- before a request that has read its tail; the code only makes that likely, by the lengths of the
-- expiries and a job timeout of 300 seconds.
pub mod Inv
mod Tail
mod Moves
pub mod Guard
pub mod Replay
mod Tests
use fifa_world_cup_ai_agent.Prelude.{
  ℕ, String, ◌≡◌, Bool, true, false, Option, none, some, List, [], ◌∷◌, ◌++◌, if◌then◌else◌,
}
use fifa_world_cup_ai_agent.Chat.Stream.{
  Digits, EntryId, StreamFields, Entry, Redis, last_stream_cursor,
}

-- A request that is past `start_turn`, and the entry that its user message will be.
pub record Request : Type 0 where
  pub message_id : ℕ
  pub content : String
  pub user_event : StreamFields

-- Where a turn stands between its reservation and its end: in the endpoint it is reserved, then its
-- message is persisted, then announced on the stream; then it is queued; in the job it is running,
-- or it failed and the error is published, or the failure is recorded too.
pub data Holder : Type 0 where
  reserved : Request → Holder
  persisted : Request → Holder
  announced : Request → Holder
  queued : Request → Holder
  running : Request → List StreamFields → Holder
  failed : Request → List StreamFields → Holder
  recorded : Request → List StreamFields → Holder

-- What the turn has written to the stream.
abbrev pub written : Holder → List StreamFields
written (reserved r) = []
written (persisted r) = []
written (announced r) = r.user_event ∷ []
written (queued r) = r.user_event ∷ []
written (running r published) = r.user_event ∷ published
written (failed r published) = r.user_event ∷ published
written (recorded r published) = r.user_event ∷ published

-- The turns that an exception in the endpoint can still drop.
abbrev pub in_endpoint : Holder → Bool
in_endpoint (reserved r) = true
in_endpoint (persisted r) = true
in_endpoint (announced r) = true
in_endpoint _ = false

-- The turns whose job runs.
abbrev pub in_job : Holder → Bool
in_job (running r sent) = true
in_job (failed r sent) = true
in_job (recorded r sent) = true
in_job _ = false

module _ (d : Digits) (redis : Redis d) where
  open redis use {Store, set_nx, delete_flag, expire_flag, expire_stream, lapse_stream, xadd}

  pub record System : Type 0 where
    pub store : Store
    -- the persisted user messages, by id
    pub messages : List (ℕ × String)
    -- the requests that have read the stream's tail and not yet tried the flag, with that cursor
    pub waiting : List (Request × EntryId)
    pub holders : List Holder
    -- the recorded `chat_turn_failure` rows
    pub failures : List (ℕ × String)

  -- `last_stream_cursor`, whose answer the request keeps.
  unfoldable pub look : Request → System → System
  look r s = record s { waiting = s.waiting ++ (r, last_stream_cursor d redis s.store) ∷ [] }

  -- `SET NX` with the cursor that was read: true is a reserved turn, false the 409.
  unfoldable pub reserve : Request → EntryId → List (Request × EntryId) → System → Bool × System
  reserve r cursor waiting s =
      let (done, store) = set_nx cursor s.store in
      (
        done,
        record s {
          store = store;
          waiting = waiting;
          holders = if done then s.holders ++ reserved r ∷ [] else s.holders;
        },
      )

  -- The user message goes to Postgres.
  unfoldable pub persist : Request → List Holder → System → System
  persist r holders s = record s {
    messages = s.messages ++ (r.message_id, r.content) ∷ [];
    holders = holders;
  }

  -- One more entry of the stream: the user message, an event of the reply, or the job's error.
  unfoldable pub publish : StreamFields → List Holder → System → System
  publish event holders s = record s { store = xadd event s.store; holders = holders }

  -- The job is enqueued; or an exception ends the request, and nothing releases the flag.
  unfoldable pub hand_over : List Holder → System → System
  hand_over holders s = record s { holders = holders }

  -- The start of the job: the flag's expiry is renewed.
  unfoldable pub start : List Holder → System → System
  start holders s = record s { store = expire_flag s.store; holders = holders }

  -- `_record_turn_failure`.
  unfoldable pub record_failure : Request → String → List Holder → System → System
  record_failure r detail holders s = record s {
    failures = s.failures ++ (r.message_id, detail) ∷ [];
    holders = holders;
  }

  -- The `finally` of the job.
  unfoldable pub finish : List Holder → System → System
  finish holders s = record s { store = expire_stream (delete_flag s.store); holders = holders }

  -- The flag's expiry, `ex=TURN_IN_PROGRESS_TTL_SECONDS`: an expired key is a deleted one.
  unfoldable pub lapse_flag : System → System
  lapse_flag s = record s { store = delete_flag s.store }

  -- The stream's expiry, set at the end of a turn; an XADD before it does not put it off.
  unfoldable pub lapse_turn_stream : System → System
  lapse_turn_stream s = record s { store = lapse_stream s.store }

  pub data Step : System → System → Type 0 where
    looked : (s : System) (r : Request) → Step s (look r s)
    tried :
        (s : System) (before after : List (Request × EntryId)) (r : Request) (c : EntryId)
        → s.waiting ≡ before ++ (r, c) ∷ after
        → Step s (reserve r c (before ++ after) s).1
    persists :
        (s : System) (before after : List Holder) (r : Request)
        → s.holders ≡ before ++ reserved r ∷ after
        → Step s (persist r (before ++ persisted r ∷ after) s)
    announces :
        (s : System) (before after : List Holder) (r : Request)
        → s.holders ≡ before ++ persisted r ∷ after
        → Step s (publish r.user_event (before ++ announced r ∷ after) s)
    enqueues :
        (s : System) (before after : List Holder) (r : Request)
        → s.holders ≡ before ++ announced r ∷ after
        → Step s (hand_over (before ++ queued r ∷ after) s)
    abandons :
        (s : System) (before after : List Holder) (h : Holder)
        → in_endpoint h ≡ true
        → s.holders ≡ before ++ h ∷ after
        → Step s (hand_over (before ++ after) s)
    starts :
        (s : System) (before after : List Holder) (r : Request)
        → s.holders ≡ before ++ queued r ∷ after
        → Step s (start (before ++ running r [] ∷ after) s)
    publishes :
        (s : System) (before after : List Holder) (r : Request) (sent : List StreamFields)
        (event : StreamFields)
        → s.holders ≡ before ++ running r sent ∷ after
        → Step s (publish event (before ++ running r (sent ++ event ∷ []) ∷ after) s)
    fails :
        (s : System) (before after : List Holder) (r : Request) (sent : List StreamFields)
        (error : StreamFields)
        → s.holders ≡ before ++ running r sent ∷ after
        → Step s (publish error (before ++ failed r (sent ++ error ∷ []) ∷ after) s)
    records :
        (s : System) (before after : List Holder) (r : Request) (sent : List StreamFields)
        (detail : String)
        → s.holders ≡ before ++ failed r sent ∷ after
        → Step s (record_failure r detail (before ++ recorded r sent ∷ after) s)
    finishes :
        (s : System) (before after : List Holder) (h : Holder)
        → in_job h ≡ true
        → s.holders ≡ before ++ h ∷ after
        → Step s (finish (before ++ after) s)
    flag_lapses : (s : System) → Step s (lapse_flag s)
    stream_lapses : (s : System) → Step s (lapse_turn_stream s)

  pub data Reach (s : System) : System → Type 0 where
    here : Reach s s
    next : {t u : System} → Reach s t → Step t u → Reach s u

  -- No key expires that a turn, or a request about to try the flag, still needs.
  abbrev pub KeepsTime : {s u : System} → Step s u → Type 0
  KeepsTime (flag_lapses s) = s.holders ≡ []
  KeepsTime (stream_lapses s) = (s.holders ≡ []) × (s.waiting ≡ [])
  KeepsTime _ = Unit

  abbrev pub IsOnTime : {s u : System} → Reach s u → Type 0
  IsOnTime here = Unit
  IsOnTime (next run step) = IsOnTime run × KeepsTime step

  -- The flag does not expire in the run.
  abbrev pub KeepsFlag : {s u : System} → Step s u → Type 0
  KeepsFlag (flag_lapses s) = ⊥
  KeepsFlag _ = Unit

  abbrev pub IsFlagKept : {s u : System} → Reach s u → Type 0
  IsFlagKept here = Unit
  IsFlagKept (next run step) = IsFlagKept run × KeepsFlag step
