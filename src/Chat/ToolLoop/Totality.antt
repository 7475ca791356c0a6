-- ===== src/Chat/ToolLoop/Totality.antt =====
-- When the tool loop raises: only when the LLM's stream or a tool's handler does.
use fifa_world_cup_ai_agent.Prelude.{
  ◌≡◌, refl, ap, ◌∙◌, subst, str_eq, ℕ, zero, suc, List, [], ◌∷◌, Option, none, some, String, Bool,
  true, false, ◌||◌, arith, Result, ok, err, Bool-cases, Option-cases, is_some, inl, inr, All,
}
use fifa_world_cup_ai_agent.Json.{Json}
use fifa_world_cup_ai_agent.Chat.Completion.{
  FinishReason, ChatCompletionChunk, ChatCompletionResult, ToolCall, Raised, CompletionStream,
}
use fifa_world_cup_ai_agent.Chat.ToolLoop.Defs.{
  CompletionMessage, ToolDefinition, ToolExecution, ToolWidgetResult, max_iterations, dispatch,
  fresh_aggregator, absorb, finalize, finish, execute_tool_call, registry_get, ChunkAggregator,
}
use fifa_world_cup_ai_agent.Chat.ToolLoop.Loop.{
  Turn, complete, run_calls, resolve_capped, iterate, run, is_final,
}
use fifa_world_cup_ai_agent.Chat.ToolLoop.Stream.{forward_lem, absorb_all}
use fifa_world_cup_ai_agent.Chat.ToolLoop.Rules.{Ensures, Ensures-bind}

-- A chunk of the stream names a finish reason; a chunk names a model.
abbrev pub names_finish : List ChatCompletionChunk → Bool
names_finish [] = false
names_finish (c ∷ cs) = is_some c.finish_reason || names_finish cs

abbrev pub names_model : List ChatCompletionChunk → Bool
names_model [] = false
names_model (c ∷ cs) = is_some c.model || names_model cs

-- A stream that ends by itself and has the shape that the aggregator expects.
pub record IsWhole (s : CompletionStream) : Type 0 where
  pub no_failure : s.failure ≡ none
  pub finished : names_finish s.chunks ≡ true
  pub modelled : names_model s.chunks ≡ true

absorb_all-finish :
    (cs : List ChatCompletionChunk) (a : ChunkAggregator)
    → is_some (absorb_all cs a).finish_reason ≡ (names_finish cs || is_some a.finish_reason)
unfolding absorb
absorb_all-finish [] a = refl
absorb_all-finish (c ∷ cs) a = ground (arith, absorb_all-finish cs (absorb c a))

absorb_all-model :
    (cs : List ChatCompletionChunk) (a : ChunkAggregator)
    → is_some (absorb_all cs a).model ≡ (names_model cs || is_some a.model)
unfolding absorb
absorb_all-model [] a = refl
absorb_all-model (c ∷ cs) a = ground (arith, absorb_all-model cs (absorb c a))

finish-total :
    (f : Option FinishReason) (m : Option String) (a : ChunkAggregator)
    → is_some f ≡ true
    → is_some m ≡ true
    → (r : ChatCompletionResult) × (finish f m a ≡ ok r)
finish-total (some f) (some m) a p q = (_, refl)
finish-total (some f) none a p q = cc
finish-total none m a p q = cc

finalize-total :
    (a : ChunkAggregator)
    → is_some a.finish_reason ≡ true
    → is_some a.model ≡ true
    → (r : ChatCompletionResult) × (finalize a ≡ ok r)
unfolding finalize
finalize-total a f m = finish-total a.finish_reason a.model a f m

-- No handler of the registry raises.
abbrev pub NeverRaises : {Args : Type 0} → List (String × ToolDefinition Args) → Type 0
NeverRaises {Args} registry =
    All
      (λ (entry : String × ToolDefinition Args).
        (args : Args) → (x : ToolExecution) × (entry.1.handler args ≡ ok x))
      registry

abbrev Returns : {A : Type 0} → Result Raised A × Turn → Type 0
Returns r = Ensures (λ _ u. Unit) (λ u. ⊥) r

module _ {Args : Type 0} (registry : List (String × ToolDefinition Args)) where
  registered-NeverRaises :
      (name : String) (reg : List (String × ToolDefinition Args)) (d : ToolDefinition Args)
      → NeverRaises reg
      → registry_get name reg ≡ some d
      → (args : Args) → (x : ToolExecution) × (d.handler args ≡ ok x)
  registered-NeverRaises name [] d h e = cc
  registered-NeverRaises name ((n, c) ∷ reg) d h e = elim (Bool-cases (str_eq n name)) [
    | inl p ↦
        let q : c ≡ d = ground arith in
        subst
          (λ (z : ToolDefinition Args).
            (args : Args) → (x : ToolExecution) × (z.handler args ≡ ok x))
          q h.0
    | inr p ↦ registered-NeverRaises name reg d h.1 (ground arith)
  ]

  -- A tool call that the model got wrong, by its name or its arguments, is answered and raises
  -- nothing.
  execute-total :
      NeverRaises registry
      → (call : ToolCall)
      → (reply : CompletionMessage × Option ToolWidgetResult) × (execute_tool_call registry call
          ≡ ok reply)
  unfolding execute_tool_call
  execute-total h call = elim (Option-cases (registry_get call.name registry)) [
    | inl e ↦ rw e (_, refl)
    | inr (d, e) ↦ rw e (go d (d.validate _) (registered-NeverRaises call.name registry d h e))
  ]
    where
      go :
          (d : ToolDefinition Args) (v : Result String Args)
          → ((args : Args) → (x : ToolExecution) × (d.handler args ≡ ok x))
          → (reply : CompletionMessage × Option ToolWidgetResult) × (dispatch call d v ≡ ok reply)
      go d (err problem) k = (_, refl)
      go d (ok args) k = let (x, e) = k args in rw (e, dispatch) (_, refl)

  run_calls-Returns :
      NeverRaises registry
      → (calls : List ToolCall) (t : Turn) → Returns (run_calls registry calls t)
  unfolding run_calls
  run_calls-Returns h [] t = tt
  run_calls-Returns h (call ∷ calls) t =
      let (reply, e) = execute-total h call in rw e (run_calls-Returns h calls _)

complete-Returns :
    (client : List CompletionMessage → List Json → CompletionStream) (tools : List Json) (t : Turn)
    → IsWhole (client t.messages tools)
    → Returns (complete client tools t)
unfolding complete
complete-Returns client tools t h =
    let stream = client t.messages tools in
    let a = absorb_all stream.chunks fresh_aggregator in
    let (r, e) =
      finalize-total a
        (absorb_all-finish stream.chunks fresh_aggregator ∙ (ap (λ b. b || false) h.finished))
        (absorb_all-model stream.chunks fresh_aggregator ∙ (ap (λ b. b || false) h.modelled)) in
    rw (forward_lem stream.chunks fresh_aggregator t, h.no_failure, e) tt

returned : (r : Result Raised (Unit {0}) × Turn) → Returns r → r.0 ≡ ok tt
returned (ok x, t) h = refl
returned (err x, t) h = absurd h

module _ {Args : Type 0} (registry : List (String × ToolDefinition Args))
    (client : List CompletionMessage → List Json → CompletionStream) (tools : List Json)
    (handlers : NeverRaises registry)
    (streams : (messages : List CompletionMessage) → IsWhole (client messages tools)) where
  iterate-Returns : (n : ℕ) (t : Turn) → Returns (iterate registry client tools n t)
  unfolding iterate resolve_capped
  iterate-Returns zero t = tt
  iterate-Returns (suc n) t =
      Ensures-bind (λ _ u. Unit) (λ _ u. Unit) (λ u. ⊥) (complete client tools) _ t
        (complete-Returns client tools t (streams t.messages))
        (λ result u _. elim (Bool-cases (is_final result)) [
          | inl e ↦ rw e tt
          | inr e ↦ rw e (
              Ensures-bind (λ _ v. Unit) (λ _ v. Unit) (λ v. ⊥)
                (run_calls registry result.tool_calls) (λ _. iterate registry client tools n) _
                (run_calls-Returns registry handlers result.tool_calls _)
                (λ _ v _. iterate-Returns n v))
        ])

  -- If every stream ends by itself with a finish reason and a model, and no handler of the registry
  -- raises, the run returns, whatever tools and arguments the model asks for.
  pub run-returns :
      (messages : List CompletionMessage) → (run registry client tools messages).0 ≡ ok tt
  unfolding run
  run-returns messages =
      returned (iterate registry client tools max_iterations _) (iterate-Returns max_iterations _)
