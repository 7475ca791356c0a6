-- ===== src/Chat/Client/Lines.antt =====
-- A whole stream of lines as the tool loop's aggregator sees it.
use fifa_world_cup_ai_agent.Prelude.{
  ℕ, ◌≡◌, ◌⊎◌, refl, sym, ap, ◌∙◌, String, Option, none, some, List, [], ◌∷◌, ◌++◌, All, append-nil,
  map, ok, err, Result-cases, inl, inr,
}
use fifa_world_cup_ai_agent.Chat.Completion.{
  ToolCall, ChatCompletionChunk, Raised, CompletionStream,
}
use fifa_world_cup_ai_agent.Chat.ToolLoop.{ChunkAggregator, absorb, or_else}
use fifa_world_cup_ai_agent.Chat.ToolLoop.Stream.{absorb_all}
use fifa_world_cup_ai_agent.Chat.Client.{
  ToolCallDelta, Choice, RawChunk, Wire, Fragments, accumulate_tool_call_fragment, accumulate_all,
  assembled_calls, calls_at_end, delta_or_empty, validated, full_chunk, payload_of, parse_sse_line,
  read_lines, yielded, after_line,
}
use fifa_world_cup_ai_agent.Chat.Client.Fragments.{of_index}
use fifa_world_cup_ai_agent.Chat.Client.Reassembly.{
  CutCall, IsNamed, in_order, whole, assembled_calls-cut,
}

module _ (wire : Wire) where
  abbrev deltas_of_choices : List Choice → List ToolCallDelta
  deltas_of_choices [] = []
  deltas_of_choices (choice ∷ choices) = (delta_or_empty choice.delta).tool_calls

  abbrev deltas_of : Option RawChunk → List ToolCallDelta
  deltas_of none = []
  deltas_of (some raw) = deltas_of_choices raw.choices

  -- The tool call deltas of the lines, in their order.
  abbrev pub line_deltas : List String → List ToolCallDelta
  line_deltas [] = []
  line_deltas (line ∷ lines) = deltas_of (payload_of wire line) ++ line_deltas lines

  abbrev reason_of_choices : List Choice → Option String
  reason_of_choices [] = none
  reason_of_choices (choice ∷ choices) = choice.finish_reason

  abbrev reason_of : Option RawChunk → Option String
  reason_of none = none
  reason_of (some raw) = reason_of_choices raw.choices

  abbrev calls_of_chunk : Option ChatCompletionChunk → Option (List ToolCall)
  calls_of_chunk none = none
  calls_of_chunk (some chunk) = chunk.tool_calls

  -- What a line does: it raises, or it leaves its deltas among the fragments and the calls in its
  -- chunk, if it has a finish reason.
  record Passed (line : String) (fs : Fragments) : Type 0 where
    chunk : Option ChatCompletionChunk
    parsed :
        parse_sse_line wire line fs
        ≡ (ok chunk, accumulate_all (deltas_of (payload_of wire line)) fs)
    calls :
        calls_of_chunk chunk
        ≡ calls_at_end
            (reason_of (payload_of wire line))
            (accumulate_all (deltas_of (payload_of wire line)) fs)

  passes :
      (line : String) (fs : Fragments)
      → ((x : Raised) × (rest : Fragments) × (parse_sse_line wire line fs ≡ (err x, rest)))
        ⊎ Passed line fs
  unfolding parse_sse_line accumulate_all
  passes line fs = go (payload_of wire line) refl
    where
      go :
          (o : Option RawChunk)
          → payload_of wire line ≡ o
          → ((x : Raised) × (rest : Fragments) × (parse_sse_line wire line fs ≡ (err x, rest)))
            ⊎ Passed line fs
      go none p = inr (record { chunk = none; parsed = rw p refl; calls = rw p refl })
      go (some raw) p = in_choices raw.choices refl
        where
          in_choices :
              (choices : List Choice)
              → raw.choices ≡ choices
              → ((x : Raised) × (rest : Fragments) × (parse_sse_line wire line fs ≡ (err x, rest)))
                ⊎ Passed line fs
          in_choices [] q =
              inr (record { chunk = none; parsed = rw (p, q) refl; calls = rw (p, q) refl })
          in_choices (choice ∷ choices) q =
              elim (Result-cases (validated wire choice.finish_reason)) [
                | inl (reason, v) ↦ inr (record {
                  chunk = some (
                      full_chunk wire raw choice
                        (accumulate_all (delta_or_empty choice.delta).tool_calls fs) reason);
                  parsed = rw (p, q, v) refl;
                  calls = rw (p, q) refl;
                })
                | inr (x, v) ↦ inl (
                  x,
                  accumulate_all (delta_or_empty choice.delta).tool_calls fs,
                  rw (p, q, v) refl,
                )
              ]

  accumulate-append :
      (ds es : List ToolCallDelta) (fs : Fragments)
      → accumulate_all (ds ++ es) fs ≡ accumulate_all es (accumulate_all ds fs)
  unfolding accumulate_all
  accumulate-append [] es fs = refl
  accumulate-append (d ∷ ds) es fs = accumulate-append ds es (accumulate_tool_call_fragment d fs)

  abbrev absorb_any : Option ChatCompletionChunk → ChunkAggregator → ChunkAggregator
  absorb_any none a = a
  absorb_any (some chunk) a = absorb chunk a

  absorb_any-calls :
      (chunk : Option ChatCompletionChunk) (a : ChunkAggregator)
      → (absorb_any chunk a).tool_calls ≡ or_else (calls_of_chunk chunk) a.tool_calls
  unfolding absorb
  absorb_any-calls none a = refl
  absorb_any-calls (some chunk) a = refl

  yielded-failure :
      (chunk : Option ChatCompletionChunk) (rest : CompletionStream)
      → (yielded wire chunk rest).failure ≡ rest.failure
  yielded-failure none rest = refl
  yielded-failure (some chunk) rest = refl

  absorb_all-yielded :
      (chunk : Option ChatCompletionChunk) (rest : CompletionStream) (a : ChunkAggregator)
      → absorb_all (yielded wire chunk rest).chunks a ≡ absorb_all rest.chunks (absorb_any chunk a)
  absorb_all-yielded none rest a = refl
  absorb_all-yielded (some chunk) rest a = refl

  -- How a stream that does not fail begins.
  abbrev pub IsOpen : String → Type 0
  IsOpen line = reason_of (payload_of wire line) ≡ none

  module _ (cut : Option Raised) where
    unfoldable aggregated : List String → Fragments → ChunkAggregator → ChunkAggregator
    aggregated lines fs a = absorb_all (read_lines wire lines cut fs).chunks a

    -- The fragments after a line.
    abbrev after : String → Fragments → Fragments
    after line fs = accumulate_all (deltas_of (payload_of wire line)) fs

    -- The first line of a stream that does not fail, and the rest.
    began :
        (line : String) (lines : List String) (fs : Fragments) (a : ChunkAggregator)
        → (read_lines wire (line ∷ lines) cut fs).failure ≡ none
        → (passed : Passed line fs) × ((read_lines wire lines cut (after line fs)).failure ≡ none)
          × (aggregated (line ∷ lines) fs a
              ≡ aggregated lines (after line fs) (absorb_any passed.chunk a))
    unfolding read_lines aggregated
    began line lines fs a h = elim (passes line fs) [
      | inl (x, rest, p) ↦ cc (h, p)
      | inr passed ↦
          let rest = read_lines wire lines cut (after line fs) in
          let e : read_lines wire (line ∷ lines) cut fs ≡ yielded wire passed.chunk rest =
            ap (after_line wire (read_lines wire lines cut)) passed.parsed in
          (
            passed,
            sym (yielded-failure passed.chunk rest) ∙ sym (ap (λ r. r.failure) e) ∙ h,
            ap (λ r. absorb_all r.chunks a) e ∙ absorb_all-yielded passed.chunk rest a,
          )
    ]

    read_none :
        (fs : Fragments) (a : ChunkAggregator) → (aggregated [] fs a).tool_calls ≡ a.tool_calls
    unfolding read_lines aggregated
    read_none fs a = refl

    open_lines :
        (lines : List String) (fs : Fragments) (a : ChunkAggregator)
        → All IsOpen lines
        → (read_lines wire lines cut fs).failure ≡ none
        → (aggregated lines fs a).tool_calls ≡ a.tool_calls
    open_lines [] fs a o h = read_none fs a
    open_lines (line ∷ lines) fs a o h =
        let (passed, rest_h, e) = began line lines fs a h in
        let same : (absorb_any passed.chunk a).tool_calls ≡ a.tool_calls =
          absorb_any-calls passed.chunk a
          ∙ ap (λ c. or_else c a.tool_calls)
              (passed.calls ∙ ap (λ r. calls_at_end r (after line fs)) o.0) in
        ap (λ x. x.tool_calls) e
        ∙ open_lines lines (after line fs) (absorb_any passed.chunk a) o.1 rest_h
        ∙ same

    closing :
        (before rest : List String) (last reason : String) (fs : Fragments) (a : ChunkAggregator)
        → reason_of (payload_of wire last) ≡ some reason
        → All IsOpen rest
        → (read_lines wire (before ++ last ∷ rest) cut fs).failure ≡ none
        → (aggregated (before ++ last ∷ rest) fs a).tool_calls
          ≡ assembled_calls (accumulate_all (line_deltas (before ++ last ∷ [])) fs)
    closing [] rest last reason fs a r o h =
        let (passed, rest_h, e) = began last rest fs a h in
        let own : (absorb_any passed.chunk a).tool_calls ≡ assembled_calls (after last fs) =
          absorb_any-calls passed.chunk a
          ∙ ap (λ c. or_else c a.tool_calls)
              (passed.calls ∙ ap (λ x. calls_at_end x (after last fs)) r) in
        ap (λ x. x.tool_calls) e
        ∙ open_lines rest (after last fs) (absorb_any passed.chunk a) o rest_h
        ∙ own
        ∙ ap (λ ds. assembled_calls (accumulate_all ds fs))
            (sym (append-nil (deltas_of (payload_of wire last))))
    closing (line ∷ before) rest last reason fs a r o h =
        let (passed, rest_h, e) = began line (before ++ last ∷ rest) fs a h in
        ap (λ x. x.tool_calls) e
        ∙ closing before rest last reason (after line fs) (absorb_any passed.chunk a) r o rest_h
        ∙ ap assembled_calls (
            sym (
              accumulate-append (deltas_of (payload_of wire line))
                (line_deltas (before ++ last ∷ [])) fs))

  -- For a stream that does not fail, whose lines up to its last finish reason carry the pieces of the
  -- server's calls, in any interleaving: the tool calls that the loop's aggregator holds at the end
  -- are the server's calls, whole and in their order, whatever it held before. Blank lines, the
  -- sentinel and lines that are no JSON may stand anywhere.
  pub stream-calls :
      (calls : List CutCall) (before rest : List String) (last reason : String)
      (a : ChunkAggregator)
      → All IsNamed calls
      → ((i : ℕ) → of_index i (line_deltas (before ++ last ∷ [])) ≡ of_index i (in_order 0 calls))
      → reason_of (payload_of wire last) ≡ some reason
      → All IsOpen rest
      → (read_lines wire (before ++ last ∷ rest) none []).failure ≡ none
      → (absorb_all (read_lines wire (before ++ last ∷ rest) none []).chunks a).tool_calls
        ≡ map whole calls
  unfolding aggregated
  stream-calls calls before rest last reason a named pieces r o h =
      closing none before rest last reason [] a r o h
      ∙ assembled_calls-cut calls (line_deltas (before ++ last ∷ [])) named pieces
