-- ===== src/Chat/Service/Start/Owner.antt =====
-- Who owns a conversation, and its categorization job, over any calls by any users.
use fifa_world_cup_ai_agent.Prelude.{
  ℕ, ◌≡◌, refl, sym, ◌∙◌, String, Bool-cases, Option, none, some, List, [], ◌∷◌, ◌++◌, ◌==◌, inl,
  inr, subst,
}
use fifa_world_cup_ai_agent.Json.{Fields}
use fifa_world_cup_ai_agent.Chat.Completion.{Raised}
use fifa_world_cup_ai_agent.Chat.Service.Start.{
  Conversation, UserRow, Store, Calls, announce_created, enqueue, commit_created, flush_created,
  commit_found, get_or_create, after_get, start_turn, touched_row, touched_at, announce_touched,
  commit_message, touch_after, append_first, persist_user_message, new_conversation, default_title,
}

-- A call of one of the two by some request.
pub data Call : Type 0 where
  start : Calls → ℕ → String → Call
  persist : Calls → ℕ → String → Option Fields → Call

-- The row of the conversation as far as `start_turn` and `persist_user_message` may not change it.
abbrev pub SameRow : Conversation → Option Conversation → Type 0
SameRow row none = ⊥
SameRow row (some later) = (later.user_id ≡ row.user_id) × (later.title ≡ row.title)

abbrev pub KeepsRow : Option Conversation → Option Conversation → Type 0
KeepsRow none after = Unit
KeepsRow (some row) after = SameRow row after

-- Without a row there is no categorization job; with one there is at most one, its owner's.
abbrev pub OwnedJobs : Option Conversation → List (ℕ × String) → Type 0
OwnedJobs none jobs = jobs ≡ []
OwnedJobs (some row) [] = Unit
OwnedJobs (some row) ((user_id, first_message) ∷ []) = user_id ≡ row.user_id
OwnedJobs (some row) (a ∷ b ∷ jobs) = ⊥

abbrev pub IsOwned : Store → Type 0
IsOwned s = OwnedJobs s.conversation s.jobs

KeepsRow_refl : (o : Option Conversation) → KeepsRow o o
KeepsRow_refl none = tt
KeepsRow_refl (some row) = (refl, refl)

KeepsRow_trans : (o p q : Option Conversation) → KeepsRow o p → KeepsRow p q → KeepsRow o q
KeepsRow_trans none p q h k = tt
KeepsRow_trans (some row) (some next) (some last) h k = (k.0 ∙ h.0, k.1 ∙ h.1)
KeepsRow_trans (some row) (some next) none h k = absurd k
KeepsRow_trans (some row) none q h k = absurd h

KeepsRow-touched : (now : ℕ) (o : Option Conversation) → KeepsRow o (touched_row now o)
KeepsRow-touched now none = tt
KeepsRow-touched now (some row) = (refl, refl)

OwnedJobs-touched :
    (now : ℕ) (o : Option Conversation) (jobs : List (ℕ × String))
    → OwnedJobs o jobs
    → OwnedJobs (touched_row now o) jobs
OwnedJobs-touched now none jobs h = h
OwnedJobs-touched now (some row) [] h = tt
OwnedJobs-touched now (some row) (a ∷ []) h = h
OwnedJobs-touched now (some row) (a ∷ b ∷ jobs) h = absurd h

-- A step from one store to another: the later is owned, and has the row of the earlier.
abbrev pub IsStep : Store → Store → Type 0
IsStep s after = IsOwned after × KeepsRow s.conversation after.conversation

stays : (s : Store) → IsOwned s → IsStep s s
stays s h = (h, KeepsRow_refl s.conversation)

module _ (strip : String → String) (isoformat ownership_text : ℕ → String) where
  abbrev pub perform : Call → Store → Store
  perform (start c user_id first_message) s =
      (start_turn strip isoformat ownership_text c user_id first_message s).1
  perform (persist c user_id content metadata) s =
      (persist_user_message strip isoformat ownership_text c user_id content metadata s).1

  abbrev pub perform_all : List Call → Store → Store
  perform_all [] s = s
  perform_all (call ∷ calls) s = perform_all calls (perform call s)

  -- Of a store with no row: a new row, whose job may have been enqueued.
  module _ (s : Store) (c : Calls) (row : Conversation) (first_message : String)
      (e : s.conversation ≡ none) (h : IsOwned s) where
    no_jobs : s.jobs ≡ []
    no_jobs = subst (λ o. OwnedJobs o s.jobs) e h

    kept : KeepsRow s.conversation (some row)
    kept = subst (λ o. KeepsRow o (some row)) (sym e) tt

    abbrev with_job : Store
    with_job = record s {
      conversation = some row;
      jobs = s.jobs ++ (row.user_id, first_message) ∷ [];
    }

    announce-IsStep :
        (x : Option Raised)
        → IsStep s (announce_created strip isoformat ownership_text x row.user_id row with_job).1
    announce-IsStep none = (
      subst (λ l. OwnedJobs (some row) (l ++ (row.user_id, first_message) ∷ [])) (sym no_jobs) refl,
      kept,
    )
    announce-IsStep (some x) = (
      subst (λ l. OwnedJobs (some row) (l ++ (row.user_id, first_message) ∷ [])) (sym no_jobs) refl,
      kept,
    )

    enqueue-IsStep :
        (x : Option Raised)
        → IsStep s
            (enqueue strip isoformat ownership_text x c row.user_id first_message row
              (record s { conversation = some row })).1
    enqueue-IsStep none = announce-IsStep c.xadd
    enqueue-IsStep (some x) = (subst (OwnedJobs (some row)) (sym no_jobs) tt, kept)

    commit-IsStep :
        (x : Option Raised)
        → IsStep s
            (commit_created strip isoformat ownership_text x c row.user_id first_message row s).1
    commit-IsStep none = enqueue-IsStep c.enqueue
    commit-IsStep (some x) = stays s h

    flush-IsStep :
        (x : Option Raised)
        → IsStep s
            (flush_created strip isoformat ownership_text x c row.user_id first_message row s).1
    flush-IsStep none = commit-IsStep c.commit
    flush-IsStep (some x) = stays s h

  found-IsStep :
      (x : Option Raised) (row : Conversation) (s : Store)
      → IsOwned s
      → IsStep s (commit_found strip isoformat ownership_text x row s).1
  found-IsStep none row s h = stays s h
  found-IsStep (some x) row s h = stays s h

  get_or_create-IsStep :
      (o : Option Conversation) (s : Store) (c : Calls) (user_id : ℕ) (first_message : String)
      → s.conversation ≡ o
      → IsOwned s
      → IsStep s (get_or_create strip isoformat ownership_text o c user_id first_message s).1
  get_or_create-IsStep none s c user_id first_message e h =
      flush-IsStep s c
        (new_conversation strip isoformat ownership_text user_id
          (default_title strip isoformat ownership_text first_message) c.now)
        first_message e h c.flush
  get_or_create-IsStep (some row) s c user_id first_message e h =
      elim (Bool-cases (row.user_id == user_id)) [
        | inl b ↦ rw b (found-IsStep c.commit row s h)
        | inr b ↦ rw b (stays s h)
      ]

  after_get-IsStep :
      (x : Option Raised) (s : Store) (c : Calls) (user_id : ℕ) (first_message : String)
      → IsOwned s
      → IsStep s (after_get strip isoformat ownership_text x c user_id first_message s).1
  after_get-IsStep none s c user_id first_message h =
      get_or_create-IsStep s.conversation s c user_id first_message refl h
  after_get-IsStep (some x) s c user_id first_message h = stays s h

  announce_touched-IsStep :
      (x : Option Raised) (user_id : ℕ) (at : Option ℕ) (s after : Store)
      → IsStep s after
      → IsStep s (announce_touched strip isoformat ownership_text x user_id at after)
  announce_touched-IsStep none user_id none s after h = h
  announce_touched-IsStep none user_id (some at) s after h = h
  announce_touched-IsStep (some x) user_id at s after h = h

  module _ (s : Store) (c : Calls) (user_id : ℕ) (row : UserRow) (h : IsOwned s) where
    commit_message-IsStep :
        (x : Option Raised)
        → IsStep s (commit_message strip isoformat ownership_text x c user_id row s).1
    commit_message-IsStep none =
        announce_touched-IsStep c.xadd user_id (touched_at c.now s.conversation) s
          (record s {
            conversation = touched_row c.now s.conversation;
            messages = s.messages ++ row ∷ [];
          })
          (OwnedJobs-touched c.now s.conversation s.jobs h, KeepsRow-touched c.now s.conversation)
    commit_message-IsStep (some x) = stays s h

    touch_after-IsStep :
        (x : Option Raised)
        → IsStep s (touch_after strip isoformat ownership_text x c user_id row s).1
    touch_after-IsStep none = commit_message-IsStep c.commit
    touch_after-IsStep (some x) = stays s h

    append_first-IsStep :
        (x : Option Raised)
        → IsStep s (append_first strip isoformat ownership_text x c user_id row s).1
    append_first-IsStep none = touch_after-IsStep c.touch
    append_first-IsStep (some x) = stays s h

  perform-IsStep : (call : Call) (s : Store) → IsOwned s → IsStep s (perform call s)
  unfolding start_turn persist_user_message
  perform-IsStep (start c user_id first_message) s h =
      after_get-IsStep c.get s c user_id first_message h
  perform-IsStep (persist c user_id content metadata) s h =
      append_first-IsStep s c user_id (record { content = content; metadata = metadata }) h c.flush

  -- Over any calls of start_turn and persist_user_message by any users, whatever they raise: the conversation has at most one categorization
  -- job, its owner's, and none before it has a row; once it has one, its owner and its title stay.
  pub perform_all-IsStep :
      (calls : List Call) (s : Store) → IsOwned s → IsStep s (perform_all calls s)
  perform_all-IsStep [] s h = stays s h
  perform_all-IsStep (call ∷ calls) s h =
      let step = perform-IsStep call s h in
      let rest = perform_all-IsStep calls (perform call s) step.0 in
      (
        rest.0,
        KeepsRow_trans s.conversation (perform call s).conversation
            (perform_all calls (perform call s)).conversation step.1 rest.1,
      )
