-- ===== src/Chat/Turn/Guard.antt =====
-- The invariant of the turns of one conversation, by induction on the steps: at most one turn at a
-- time.
use fifa_world_cup_ai_agent.Prelude.{
  ◌≤◌, ◌≡◌, refl, sym, subst, true, List, [], ◌∷◌, ◌++◌, length, arith,
}
use fifa_world_cup_ai_agent.Chat.Stream.{Digits, EntryId, Redis}
use fifa_world_cup_ai_agent.Chat.Turn.{
  Request, Holder, reserved, persisted, announced, queued, running, failed, recorded, System,
  reserve, persist, hand_over, start, record_failure, finish, Step, looked, tried, persists,
  announces, enqueues, abandons, starts, publishes, fails, records, finishes, flag_lapses,
  stream_lapses, lapse_flag, lapse_turn_stream, KeepsTime, IsOnTime, Reach, here, next,
}
use fifa_world_cup_ai_agent.Chat.Turn.Inv.{Holds, Waits, Inv, Held-keep}
use fifa_world_cup_ai_agent.Chat.Turn.Moves.{
  sole, Inv-IsLog, IsLog, move-Inv, look-Inv, reserve-Inv, end-Inv, rest-Inv, publish-Inv,
  finished_entries,
}

module _ (d : Digits) (redis : Redis d) where
  open redis use {Store, set_nx}

  Step-Inv :
      {s u : System d redis} (st : Step d redis s u)
      → KeepsTime d redis st
      → Inv d redis s
      → Inv d redis u
  unfolding persist hand_over start record_failure finish lapse_flag lapse_turn_stream
  Step-Inv (looked s r) t i = look-Inv d redis r s i
  Step-Inv (tried s before after r c e) t i = reserve-Inv d redis s before after r c e i
  Step-Inv (persists s before after r e) t i =
      rest-Inv d redis s _ _ before after (reserved r) (persisted r) e refl i
  Step-Inv (announces s before after r e) t i =
      publish-Inv d redis s before after r.user_event (persisted r) (announced r) e refl i
  Step-Inv (enqueues s before after r e) t i =
      rest-Inv d redis s _ _ before after (announced r) (queued r) e refl i
  Step-Inv (abandons s before after h b e) t i =
      let (p, q, k) = sole d redis s.store s.holders before after h i.holds e in
      end-Inv d redis s _ _ _ before after (p, q) (Inv-IsLog d redis s i) i.waits
  Step-Inv (starts s before after r e) t i =
      let (p, q, k) = sole d redis s.store s.holders before after (queued r) i.holds e in
      let entries = redis.expire_flag_entries s.store in
      move-Inv d redis s _ _ _ before after (running r []) (p, q)
        (subst (IsLog d redis) (sym entries) (Inv-IsLog d redis s i))
        (subst (λ es. Waits d redis es s.waiting) (sym entries) i.waits)
        (Held-keep d redis s.store _ (queued r) (running r []) (redis.get-expire_flag s.store)
          entries refl k)
  Step-Inv (publishes s before after r sent event e) t i =
      publish-Inv d redis s before after event (running r sent) (running r (sent ++ event ∷ [])) e
        refl i
  Step-Inv (fails s before after r sent error e) t i =
      publish-Inv d redis s before after error (running r sent) (failed r (sent ++ error ∷ [])) e
        refl i
  Step-Inv (records s before after r sent detail e) t i =
      rest-Inv d redis s _ _ before after (failed r sent) (recorded r sent) e refl i
  Step-Inv (finishes s before after h b e) t i =
      let (p, q, k) = sole d redis s.store s.holders before after h i.holds e in
      let entries = sym (finished_entries d redis s.store) in
      end-Inv d redis s _ _ _ before after (p, q)
        (subst (IsLog d redis) entries (Inv-IsLog d redis s i))
        (subst (λ es. Waits d redis es s.waiting) entries i.waits)
  Step-Inv (flag_lapses s) t i =
      let entries = sym (redis.delete_flag_entries s.store) in
      let l = subst (IsLog d redis) entries (Inv-IsLog d redis s i) in
      record {
        ordered = l.0;
        valid_ids = l.1;
        waits = subst (λ es. Waits d redis es s.waiting) entries i.waits;
        holds = rw t tt;
      }
  Step-Inv (stream_lapses s) t i =
      let entries = sym (redis.lapse_stream_entries s.store) in
      let l : IsLog d redis [] = (tt, tt) in
      let log = subst (IsLog d redis) entries l in
      record { ordered = log.0; valid_ids = log.1; waits = rw t.1 tt; holds = rw t.0 tt }

  -- Every state that a run on time reaches from one that keeps the invariant keeps it.
  pub Reach-Inv :
      {s u : System d redis}
      → Inv d redis s
      → (p : Reach d redis s u) → IsOnTime d redis p
      → Inv d redis u
  Reach-Inv i here t = i
  Reach-Inv i (next r st) (t, u) = Step-Inv st u (Reach-Inv i r t)

  -- From a state with the invariant, in a run in which the flag does not expire under a turn, nor the
  -- stream under a turn or a request, at most one turn is under way in every state reached, and a
  -- request, whatever cursor it has read, reserves its turn only when none is.
  pub one_turn :
      {s u : System d redis}
      → Inv d redis s
      → (p : Reach d redis s u) → IsOnTime d redis p
      → (length u.holders ≤ 1)
        × ((r : Request) (c : EntryId) (waiting : List (Request × EntryId))
            → (reserve d redis r c waiting u).0 ≡ true
            → u.holders ≡ [])
  unfolding reserve
  one_turn {u} i p t =
      let k = Reach-Inv i p t in
      (at_most u.holders k.holds, λ r c waiting h. free c u.holders k.holds h)
    where
      at_most : (hs : List Holder) → Holds d redis u.store hs → length hs ≤ 1
      at_most [] k = omega arith
      at_most (h ∷ []) k = omega arith
      at_most (h ∷ g ∷ hs) k = absurd k

      free :
          (c : EntryId) (hs : List Holder)
          → Holds d redis u.store hs
          → (set_nx c u.store).0 ≡ true
          → hs ≡ []
      free c [] k e = refl
      free c (h ∷ []) k e = cc (e, (redis.set_nx_held c k.cursor u.store k.flag).0)
      free c (h ∷ g ∷ hs) k e = absurd k
