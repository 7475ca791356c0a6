-- ===== src/Chat/Client/Reassembly.antt =====
-- The tool calls that come out of a stream of fragments, for calls that the server cut into pieces.
use fifa_world_cup_ai_agent.Prelude.{
  ℕ, ◌+◌, ◌<◌, ◌≡◌, refl, sym, subst, ap, ◌∙◌, String, ◌<>◌, join, truthy, true, false, Bool-cases,
  inl, inr, none, some, List, [], ◌∷◌, ◌++◌, map, All, ◌==◌, arith, append-nil, append_nil,
  nil_append, text_append_assoc, falsy_empty,
}
use fifa_world_cup_ai_agent.Chat.Completion.{ToolCall}
use fifa_world_cup_ai_agent.Chat.Client.{
  ToolCallDelta, Fragment, Fragments, empty_fragment, index_of, update, accumulate_all,
  sort_fragments, calls_of, assembled_calls, appended,
}
use fifa_world_cup_ai_agent.Chat.Client.Fragments.{
  lookup, of_index, grown, From, lookup-accumulate, accumulate-IsMap, sort-From, lookup-sort,
  From-unique, lookup_head,
}

-- A call and the pieces of its arguments.
pub record CutCall : Type 0 where
  pub id : String
  pub name : String
  pub first : String
  pub later : List String

abbrev pub first_delta : ℕ → CutCall → ToolCallDelta
first_delta i c = record {
  index = some i;
  id = some c.id;
  function = some (record { name = some c.name; arguments = some c.first });
}

abbrev pub later_delta : ℕ → String → ToolCallDelta
later_delta i part = record {
  index = some i;
  id = none;
  function = some (record { name = none; arguments = some part });
}

abbrev pub later_deltas : ℕ → List String → List ToolCallDelta
later_deltas i [] = []
later_deltas i (part ∷ parts) = later_delta i part ∷ later_deltas i parts

-- The pieces of the calls, numbered from `i`, one call after the other.
abbrev pub in_order : ℕ → List CutCall → List ToolCallDelta
in_order i [] = []
in_order i (c ∷ cs) = (first_delta i c ∷ later_deltas i c.later) ++ in_order (i + 1) cs

abbrev pub whole : CutCall → ToolCall
whole c = record { id = c.id; name = c.name; arguments = join (c.first ∷ c.later) }

-- A call with an id and a name.
abbrev pub IsNamed : CutCall → Type 0
IsNamed c = (truthy c.id ≡ true) × (truthy c.name ≡ true)

abbrev fragment_of : CutCall → Fragment
fragment_of c = record { id = c.id; name = c.name; arguments = join (c.first ∷ c.later) }

abbrev numbered : ℕ → List CutCall → Fragments
numbered i [] = []
numbered i (c ∷ cs) = (i, fragment_of c) ∷ numbered (i + 1) cs

numbered-From : (i : ℕ) (cs : List CutCall) → From i (numbered i cs)
numbered-From i [] = tt
numbered-From i (c ∷ cs) = (omega arith, numbered-From (i + 1) cs)

calls-numbered : (i : ℕ) (cs : List CutCall) → calls_of (numbered i cs) ≡ map whole cs
calls-numbered i [] = refl
calls-numbered i (c ∷ cs) = ap (λ l. whole c ∷ l) (calls-numbered (i + 1) cs)

of_index-append :
    (i : ℕ) (ds es : List ToolCallDelta) → of_index i (ds ++ es) ≡ of_index i ds ++ of_index i es
of_index-append i [] es = refl
of_index-append i (d ∷ ds) es =
    let rest = of_index-append i ds es in
    elim (Bool-cases (index_of d.index == i)) [
      | inl b ↦ rw b (ap (λ l. d ∷ l) rest)
      | inr b ↦ rw b rest
    ]

of_index-later_same :
    (i : ℕ) (parts : List String) → of_index i (later_deltas i parts) ≡ later_deltas i parts
of_index-later_same i [] = refl
of_index-later_same i (part ∷ parts) =
    let b : (i == i) ≡ true = ground arith in
    rw b (ap (λ l. later_delta i part ∷ l) (of_index-later_same i parts))

of_index-later_other :
    (i j : ℕ) (parts : List String) → (j == i) ≡ false → of_index i (later_deltas j parts) ≡ []
of_index-later_other i j [] h = refl
of_index-later_other i j (part ∷ parts) h = rw h (of_index-later_other i j parts h)

of_index_below : (i n : ℕ) (cs : List CutCall) → i < n → of_index i (in_order n cs) ≡ []
of_index_below i n [] h = refl
of_index_below i n (c ∷ cs) h =
    let b : (n == i) ≡ false = ground (arith, h) in
    of_index-append i (first_delta n c ∷ later_deltas n c.later) (in_order (n + 1) cs)
    ∙ rw b (
        ap (λ l. l ++ of_index i (in_order (n + 1) cs)) (of_index-later_other i n c.later b)
        ∙ of_index_below i (n + 1) cs (omega (arith, h)))

appended-text : (part old : String) → appended (some part) old ≡ old <> part
appended-text part old = elim (Bool-cases (truthy part)) [
  | inl b ↦ rw b refl
  | inr b ↦ rw b (sym (ap (λ s. old <> s) (falsy_empty part b) ∙ append_nil old))
]

grown-later :
    (i : ℕ) (parts : List String) (f : Fragment)
    → grown (later_deltas i parts) (some f)
      ≡ some (record f { arguments = f.arguments <> join parts })
unfolding update
grown-later i [] f = ap (λ s. some (record f { arguments = s })) (sym (append_nil f.arguments))
grown-later i (part ∷ parts) f =
    grown-later i parts (record f { arguments = appended (some part) f.arguments })
    ∙ ap (λ s. some (record f { arguments = s }))
        (ap (λ s. s <> join parts) (appended-text part f.arguments)
          ∙ text_append_assoc f.arguments part (join parts))

grown-cut :
    (i : ℕ) (c : CutCall)
    → IsNamed c
    → grown (first_delta i c ∷ later_deltas i c.later) none ≡ some (fragment_of c)
unfolding update
grown-cut i c h =
    grown-later i c.later (update (first_delta i c) empty_fragment)
    ∙ rw (h.0, h.1)
        (ap (λ s. some (record (fragment_of c) { arguments = s <> join c.later }))
          (appended-text c.first "" ∙ nil_append c.first))

abbrev cut_deltas : ℕ → CutCall → List ToolCallDelta
cut_deltas i c = first_delta i c ∷ later_deltas i c.later

in_order_same :
    (i : ℕ) (c : CutCall) (cs : List CutCall) → of_index i (in_order i (c ∷ cs)) ≡ cut_deltas i c
in_order_same i c cs =
    let b : (i == i) ≡ true = ground arith in
    let own : of_index i (cut_deltas i c) ≡ cut_deltas i c =
      rw b (ap (λ l. first_delta i c ∷ l) (of_index-later_same i c.later)) in
    of_index-append i (cut_deltas i c) (in_order (i + 1) cs)
    ∙ ap (λ l. l ++ of_index i (in_order (i + 1) cs)) own
    ∙ ap (λ l. cut_deltas i c ++ l) (of_index_below i (i + 1) cs (omega arith))
    ∙ append-nil (cut_deltas i c)

in_order_other :
    (i n : ℕ) (c : CutCall) (cs : List CutCall)
    → (n == i) ≡ false
    → of_index i (in_order n (c ∷ cs)) ≡ of_index i (in_order (n + 1) cs)
in_order_other i n c cs b =
    let none_own : of_index i (cut_deltas n c) ≡ [] = rw b (of_index-later_other i n c.later b) in
    of_index-append i (cut_deltas n c) (in_order (n + 1) cs)
    ∙ ap (λ l. l ++ of_index i (in_order (n + 1) cs)) none_own

lookup-numbered :
    (i n : ℕ) (cs : List CutCall)
    → All IsNamed cs
    → lookup i (numbered n cs) ≡ grown (of_index i (in_order n cs)) none
lookup-numbered i n [] h = refl
lookup-numbered i n (c ∷ cs) h = elim (Bool-cases (n == i)) [
  | inl b ↦
      let p : n ≡ i = ground (arith, b) in
      subst (λ k. lookup i (numbered k (c ∷ cs)) ≡ grown (of_index i (in_order k (c ∷ cs))) none)
        (sym p)
        (lookup_head i (fragment_of c) (numbered (i + 1) cs)
          ∙ sym (ap (λ l. grown l none) (in_order_same i c cs) ∙ grown-cut i c h.0))
  | inr b ↦
      let skip : lookup i (numbered n (c ∷ cs)) ≡ lookup i (numbered (n + 1) cs) = rw b refl in
      skip
      ∙ lookup-numbered i (n + 1) cs h.1
      ∙ sym (ap (λ l. grown l none) (in_order_other i n c cs b))
]

-- However the server cuts the arguments of its calls, and however it interleaves the pieces of
-- different calls, the calls that are assembled are the server's, in the order of their indexes, with
-- their arguments whole. The pieces of one call come in their order, the first with its id and name.
pub assembled_calls-cut :
    (calls : List CutCall) (ds : List ToolCallDelta)
    → All IsNamed calls
    → ((i : ℕ) → of_index i ds ≡ of_index i (in_order 0 calls))
    → assembled_calls (accumulate_all ds []) ≡ map whole calls
unfolding assembled_calls
assembled_calls-cut calls ds h same =
    let fs = accumulate_all ds [] in
    let m = accumulate-IsMap ds [] tt in
    let agree : (i : ℕ) → lookup i (sort_fragments fs) ≡ lookup i (numbered 0 calls) = λ i.
      lookup-sort i fs m
      ∙ lookup-accumulate i ds []
      ∙ ap (λ l. grown l none) (same i)
      ∙ sym (lookup-numbered i 0 calls h) in
    ap calls_of (
      From-unique 0 (sort_fragments fs) (numbered 0 calls) (sort-From fs m) (numbered-From 0 calls)
        agree)
    ∙ calls-numbered 0 calls
