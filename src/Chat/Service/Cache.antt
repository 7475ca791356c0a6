-- ===== src/Chat/Service/Cache.antt =====
-- The cached history against the rows of Postgres.
use fifa_world_cup_ai_agent.Prelude.{
  ℕ, ◌≤◌, ◌≡◌, refl, sym, subst, ap, ◌∙◌, String, Option, none, some, List, [], ◌∷◌, ◌++◌, ◌⊎◌,
  append_assoc, Result, ok, err, inl, inr, arith,
}
use fifa_world_cup_ai_agent.Json.{Json, Fields}
use fifa_world_cup_ai_agent.Chat.Completion.{Raised, CompletionStream}
use fifa_world_cup_ai_agent.Chat.History.{
  Message, MessageRole, message, rebuild, pair_complete_turns,
}
use fifa_world_cup_ai_agent.Chat.History.Pairs.{pair_complete_turns-snoc_turn}
use fifa_world_cup_ai_agent.Chat.History.Window.{total_tokens, total_tokens-append}
use fifa_world_cup_ai_agent.Chat.History.Stability.{rebuild-snoc, rebuild-append_turn}
use fifa_world_cup_ai_agent.Chat.ToolLoop.{
  Segment, TurnResult, CompletionMessage, ToolDefinition, Turn, run,
}
use fifa_world_cup_ai_agent.Chat.Events.{ChatTurnEvent}
use fifa_world_cup_ai_agent.Chat.Service.Parts.{
  Texts, MessageContext, Lookups, build_match_directive, completion_messages, reply_content,
  segments_of, widgets_of, live_events, resolution,
}
use fifa_world_cup_ai_agent.Chat.Service.{
  Row, World, Outcomes, Ran, prompt_rows, from_cache, load_prompt_history, persist_reply,
  append_row, touch_row, conclude, unresolved_or, after_run, with_directive, with_history,
  send_message,
}
use fifa_world_cup_ai_agent.Chat.Service.Rows.{publish_rows, load-rows}

prompt_rows-snoc :
    (rows : List Row) (row : Row)
    → prompt_rows (rows ++ row ∷ []) ≡ prompt_rows rows ++ row.message ∷ []
prompt_rows-snoc [] row = refl
prompt_rows-snoc (r ∷ rows) row = ap (λ l. r.message ∷ l) (prompt_rows-snoc rows row)

-- No call that the turn's history rests on raises.
pub record IsCalm {Time : Type 0} (o : Outcomes Time) : Type 0 where
  pub get_history : o.get_history ≡ none
  pub list_prompt_turns : o.list_prompt_turns ≡ none
  pub append_message : o.append_message ≡ none
  pub touch : o.touch ≡ none
  pub commit : o.commit ≡ none
  pub save_history : o.save_history ≡ none

module _ {Time : Type 0} (o : Outcomes Time) (calm : IsCalm o) where
  -- A turn that ends: one reply more, in the rows and in the cache.
  record Answered (history : List Message) (v : World Time) (ran : Ran Time) : Type 0 where
    reply : String
    widgets : List (String × String × Fields)
    rows :
        ran.world.rows
        ≡ v.rows ++ record { message = message MessageRole.assistant reply; widgets = widgets } ∷ []
    cached : ran.world.cached ≡ history ++ message MessageRole.assistant reply ∷ []

  abbrev AnsweredIf : List Message → World Time → Ran Time → Result Raised (Unit {0}) → Type 0
  AnsweredIf history v ran (ok u) = Answered history v ran
  AnsweredIf history v ran (err x) = Unit

  module _ (texts : Texts) (conversation_id : String) where
    conclude-Answered :
        (history : List Message) (es : List ChatTurnEvent) (result : TurnResult)
        (segments : List Segment) (v : World Time)
        → Answered history v (conclude texts o conversation_id history es (result, segments) v)
    unfolding conclude persist_reply
    conclude-Answered history es result segments v = record {
      reply = reply_content texts result;
      widgets = widgets_of (segments_of texts result segments);
      rows =
          rw (calm.append_message, calm.touch, calm.commit, calm.save_history)
            (publish_rows o.xadd (some o.now) (
              touch_row o.now (
                append_row MessageRole.assistant (reply_content texts result)
                  (widgets_of (segments_of texts result segments)) v)));
      cached = rw calm.save_history refl;
    }

    unresolved_or-AnsweredIf :
        (history : List Message) (es : List ChatTurnEvent)
        (found : Option (TurnResult × List Segment)) (v : World Time)
        → AnsweredIf history v
            (unresolved_or texts o conversation_id history es found v)
            (unresolved_or texts o conversation_id history es found v).result
    unfolding conclude
    unresolved_or-AnsweredIf history es none v = tt
    unresolved_or-AnsweredIf history es (some (result, segments)) v =
        conclude-Answered history es result segments v

    after_run-AnsweredIf :
        (history : List Message) (r : Result Raised (Unit {0}) × Turn) (v : World Time)
        → AnsweredIf history v
            (after_run texts o conversation_id history r v)
            (after_run texts o conversation_id history r v).result
    after_run-AnsweredIf history (err x, t) v = tt
    after_run-AnsweredIf history (ok u, t) v =
        unresolved_or-AnsweredIf history (live_events t.events) (resolution t.events) v

    answered :
        (history : List Message) (v : World Time) (ran : Ran Time)
        → AnsweredIf history v ran ran.result
        → ran.result ≡ ok tt
        → Answered history v ran
    answered history v ran h e = subst (AnsweredIf history v ran) e h

module _ (count_tokens : String → ℕ) (token_budget : ℕ) where
  -- What a rebuild of the rows gives.
  abbrev pub history_of : {Time : Type 0} → World Time → List Message
  history_of w = rebuild count_tokens token_budget (prompt_rows w.rows)

  -- The cache is empty, or has what a rebuild gives.
  abbrev pub IsCoherent : {Time : Type 0} → World Time → Type 0
  IsCoherent w = (w.cached ≡ []) ⊎ (w.cached ≡ history_of w)

  module _ {Time : Type 0} (o : Outcomes Time) (w : World Time) (calm : IsCalm o) where
    load-history :
        IsCoherent w → (load_prompt_history count_tokens token_budget o w).0 ≡ ok (history_of w)
    unfolding load_prompt_history
    load-history coherent = rw calm.get_history (go w.cached coherent)
      where
        go :
            (cached : List Message)
            → (cached ≡ []) ⊎ (cached ≡ history_of w)
            → (from_cache count_tokens token_budget o (ok cached) w).0 ≡ ok (history_of w)
        go [] h = rw calm.list_prompt_turns refl
        go (m ∷ history) (inl e) = cc e
        go (m ∷ history) (inr e) = ap ok e

  -- A history that a turn extends by its two messages.
  extended :
      (old : List Message) (question reply : String)
      → total_tokens count_tokens (
          pair_complete_turns
            (old ++ message MessageRole.user question ∷ message MessageRole.assistant reply ∷ []))
        ≤ token_budget
      → rebuild count_tokens token_budget
          (old ++ message MessageRole.user question ∷ message MessageRole.assistant reply ∷ [])
        ≡ (rebuild count_tokens token_budget (old ++ message MessageRole.user question ∷ [])
            ++ message MessageRole.user question ∷ [])
          ++ message MessageRole.assistant reply ∷ []
  extended old question reply fits =
      let u = message MessageRole.user question in
      let a = message MessageRole.assistant reply in
      let turns = pair_complete_turns old in
      let split =
        ap (total_tokens count_tokens) (pair_complete_turns-snoc_turn old u a refl)
        ∙ total_tokens-append count_tokens turns ((u, a) ∷ []) in
      rebuild-append_turn count_tokens token_budget old u a refl (omega (arith, split, fits))
      ∙ ap (λ l. l ++ u ∷ a ∷ []) (sym (rebuild-snoc count_tokens token_budget old u refl))
      ∙ sym (append_assoc (rebuild count_tokens token_budget (old ++ u ∷ [])) (u ∷ []) (a ∷ []))

  module _ {Time Args : Type 0} (texts : Texts) (lookups : Lookups)
      (registry : List (String × ToolDefinition Args))
      (client : List CompletionMessage → List Json → CompletionStream) (tools : List Json)
      (conversation_id : String) (o : Outcomes Time) (w : World Time) (calm : IsCalm o) where
    abbrev ran : String → Option MessageContext → Ran Time
    ran user_message context =
        send_message count_tokens token_budget texts lookups registry client tools conversation_id o
          user_message context w

    with_directive-AnsweredIf :
        (history : List Message) (directive : Result Raised (Option String)) (v : World Time)
        → AnsweredIf o calm history v
            (with_directive count_tokens token_budget texts lookups registry client tools
              conversation_id o history directive v)
            (with_directive count_tokens token_budget texts lookups registry client tools
              conversation_id o history directive v).result
    with_directive-AnsweredIf history (err x) v = tt
    with_directive-AnsweredIf history (ok directive) v =
        after_run-AnsweredIf o calm texts conversation_id history
          (run registry client tools (completion_messages directive history)) v

    send-Answered :
        (user_message : String) (context : Option MessageContext)
        → IsCoherent w
        → (ran user_message context).result ≡ ok tt
        → Answered o calm
            (history_of w ++ message MessageRole.user user_message ∷ [])
            w
            (ran user_message context)
    unfolding send_message
    send-Answered user_message context coherent e =
        go (load_prompt_history count_tokens token_budget o w) (load-history o w calm coherent)
          (load-rows count_tokens token_budget o w) e
      where
        go :
            (loaded : Result Raised (List Message) × World Time)
            → loaded.0 ≡ ok (history_of w)
            → loaded.1.rows ≡ w.rows
            → (with_history count_tokens token_budget texts lookups registry client tools
                conversation_id o user_message context loaded).result
              ≡ ok tt
            → Answered o calm (history_of w ++ message MessageRole.user user_message ∷ []) w (
                with_history count_tokens token_budget texts lookups registry client tools
                  conversation_id o user_message context loaded)
        go (err x, v) h r e = cc h
        go (ok history, v) h r e =
            let u = message MessageRole.user user_message in
            let directive = build_match_directive lookups context in
            let p : history ≡ history_of w = cc h in
            let a =
              answered o calm texts conversation_id (history ++ u ∷ []) v
                (with_directive count_tokens token_budget texts lookups registry client tools
                  conversation_id o (history ++ u ∷ []) directive v)
                (with_directive-AnsweredIf (history ++ u ∷ []) directive v) e in
            let reply = message MessageRole.assistant a.reply in
            record {
              reply = a.reply;
              widgets = a.widgets;
              rows = a.rows ∙ ap (λ l. l ++ record { message = reply; widgets = a.widgets } ∷ []) r;
              cached = a.cached ∙ ap (λ l. (l ++ u ∷ []) ++ reply ∷ []) p;
            }

    -- The cache is transparent. In a turn that ends and in which no call on Postgres or the cache
    -- raises, on a conversation whose last row is the user's message, whose turns all fit the token
    -- budget at the end, and whose cache is empty or has what a rebuild gives: the turn starts from
    -- what a rebuild gives, and afterwards the cache has what a rebuild of the new rows gives.
    pub send_message-IsCoherent :
        (old : List Message) (user_message : String) (context : Option MessageContext)
        → prompt_rows w.rows ≡ old ++ message MessageRole.user user_message ∷ []
        → IsCoherent w
        → (ran user_message context).result ≡ ok tt
        → total_tokens count_tokens
            (pair_complete_turns (prompt_rows (ran user_message context).world.rows))
          ≤ token_budget
        → ((load_prompt_history count_tokens token_budget o w).0 ≡ ok (history_of w))
          × ((ran user_message context).world.cached ≡ history_of (ran user_message context).world)
    send_message-IsCoherent old user_message context last coherent e fits =
        let a = send-Answered user_message context coherent e in
        let u = message MessageRole.user user_message in
        let reply = message MessageRole.assistant a.reply in
        let rows : prompt_rows (ran user_message context).world.rows ≡ old ++ u ∷ reply ∷ [] =
          ap prompt_rows a.rows
          ∙ prompt_rows-snoc w.rows (record { message = reply; widgets = a.widgets })
          ∙ ap (λ l. l ++ reply ∷ []) last
          ∙ append_assoc old (u ∷ []) (reply ∷ []) in
        let fit =
          subst (λ l. total_tokens count_tokens (pair_complete_turns l) ≤ token_budget) rows fits in
        (
          load-history o w calm coherent,
          a.cached
              ∙ ap (λ l. (rebuild count_tokens token_budget l ++ u ∷ []) ++ reply ∷ []) last
              ∙ sym (extended old user_message a.reply fit)
              ∙ ap (rebuild count_tokens token_budget) (sym rows),
        )
