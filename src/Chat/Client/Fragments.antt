-- ===== src/Chat/Client/Fragments.antt =====
-- The fragments of tool calls as a finite map from indexes: what each delta does to it, and what the
-- sort makes of it.
use fifa_world_cup_ai_agent.Prelude.{
  ℕ, ◌+◌, ◌≤◌, ◌<◌, ◌≡◌, ◌≢◌, refl, sym, subst, ap, ◌∙◌, true, false, Bool-cases, inl, inr, Option,
  none, some, List, [], ◌∷◌, if◌then◌else◌, ltb, ◌==◌, arith,
}
use fifa_world_cup_ai_agent.Chat.Client.{
  ToolCallDelta, Fragment, Fragments, empty_fragment, index_of, update, change, accumulate_all,
  insert_fragment, sort_fragments,
}

-- The fragment of an index.
abbrev pub lookup : ℕ → Fragments → Option Fragment
lookup i [] = none
lookup i ((j, f) ∷ fs) = if j == i then some f else lookup i fs

abbrev pub or_empty : Option Fragment → Fragment
or_empty none = empty_fragment
or_empty (some f) = f

-- The deltas of one index, in their order.
abbrev pub of_index : ℕ → List ToolCallDelta → List ToolCallDelta
of_index i [] = []
of_index i (d ∷ ds) = let rest = of_index i ds in if index_of d.index == i then d ∷ rest else rest

-- What a fragment becomes by its own deltas.
abbrev pub grown : List ToolCallDelta → Option Fragment → Option Fragment
grown [] o = o
grown (d ∷ ds) o = grown ds (some (update d (or_empty o)))

lookup-change :
    (i j : ℕ) (u : Fragment → Fragment) (fs : Fragments)
    → lookup i (change j u fs) ≡ (if j == i then some (u (or_empty (lookup j fs))) else lookup i fs)
unfolding change
lookup-change i j u [] = refl
lookup-change i j u ((k, f) ∷ fs) =
    let rest = lookup-change i j u fs in
    elim (Bool-cases (k == j)) [
      | inl a ↦ elim (Bool-cases (j == i)) [
        | inl b ↦ let c : (k == i) ≡ true = ground (arith, a, b) in rw (a, b, c) refl
        | inr b ↦ let c : (k == i) ≡ false = ground (arith, a, b) in rw (a, b, c) refl
      ]
      | inr a ↦ elim (Bool-cases (k == i)) [
        | inl b ↦ let c : (j == i) ≡ false = ground (arith, a, b) in rw (a, b, c) refl
        | inr b ↦ rw (a, b) rest
      ]
    ]

-- Every index grows by its own deltas alone.
pub lookup-accumulate :
    (i : ℕ) (ds : List ToolCallDelta) (fs : Fragments)
    → lookup i (accumulate_all ds fs) ≡ grown (of_index i ds) (lookup i fs)
unfolding accumulate_all
lookup-accumulate i [] fs = refl
lookup-accumulate i (d ∷ ds) fs =
    let rest = lookup-accumulate i ds (change (index_of d.index) (update d) fs) in
    let step = lookup-change i (index_of d.index) (update d) fs in
    elim (Bool-cases (index_of d.index == i)) [
      | inl b ↦
          let p : index_of d.index ≡ i = ground (arith, b) in
          rw b (
            rest
            ∙ ap (grown (of_index i ds))
                (step ∙ rw b (ap (λ k. some (update d (or_empty (lookup k fs)))) p)))
      | inr b ↦ rw b (rest ∙ ap (grown (of_index i ds)) (step ∙ rw b refl))
    ]

-- The fragments under strictly rising indexes, all of them from `n` on.
abbrev pub From : ℕ → Fragments → Type 0
From n [] = Unit
From n ((i, f) ∷ fs) = (n ≤ i) × From (i + 1) fs

-- No index twice.
abbrev pub Fresh : ℕ → Fragments → Type 0
Fresh i [] = Unit
Fresh i ((j, f) ∷ fs) = ((j == i) ≡ false) × Fresh i fs

abbrev pub IsMap : Fragments → Type 0
IsMap [] = Unit
IsMap ((i, f) ∷ fs) = Fresh i fs × IsMap fs

change-Fresh :
    (i j : ℕ) (u : Fragment → Fragment) (fs : Fragments)
    → (j == i) ≡ false
    → Fresh i fs
    → Fresh i (change j u fs)
unfolding change
change-Fresh i j u [] h k = (h, tt)
change-Fresh i j u ((l, f) ∷ fs) h k =
    let rest = change-Fresh i j u fs h k.1 in
    elim (Bool-cases (l == j)) [ inl a ↦ rw a k | inr a ↦ rw a (k.0, rest) ]

change-IsMap : (j : ℕ) (u : Fragment → Fragment) (fs : Fragments) → IsMap fs → IsMap (change j u fs)
unfolding change
change-IsMap j u [] h = (tt, tt)
change-IsMap j u ((l, f) ∷ fs) h =
    let rest = change-IsMap j u fs h.1 in
    elim (Bool-cases (l == j)) [
      | inl a ↦ rw a h
      | inr a ↦ rw a (change-Fresh l j u fs (ground (arith, a)) h.0, rest)
    ]

pub accumulate-IsMap :
    (ds : List ToolCallDelta) (fs : Fragments) → IsMap fs → IsMap (accumulate_all ds fs)
unfolding accumulate_all
accumulate-IsMap [] fs h = h
accumulate-IsMap (d ∷ ds) fs h =
    accumulate-IsMap ds (change (index_of d.index) (update d) fs)
      (change-IsMap (index_of d.index) (update d) fs h)

-- What is inserted below the first index keeps the order.
insert-From :
    (n i : ℕ) (f : Fragment) (fs : Fragments)
    → n ≤ i
    → Fresh i fs
    → From n fs
    → From n (insert_fragment (i, f) fs)
unfolding insert_fragment
insert-From n i f [] h k s = (h, tt)
insert-From n i f ((j, g) ∷ fs) h k s = elim (Bool-cases (ltb i j)) [
  | inl a ↦ rw a (h, (ground (arith, a), s.1))
  | inr a ↦
      let le : j + 1 ≤ i = ground (arith, a, k.0) in
      rw a (s.0, insert-From (j + 1) i f fs le k.1 s.1)
]

lookup-insert :
    (i j : ℕ) (f : Fragment) (fs : Fragments)
    → Fresh j fs
    → lookup i (insert_fragment (j, f) fs) ≡ lookup i ((j, f) ∷ fs)
unfolding insert_fragment
lookup-insert i j f [] h = refl
lookup-insert i j f ((k, g) ∷ fs) h = elim (Bool-cases (ltb j k)) [
  | inl a ↦ rw a refl
  | inr a ↦
      let rest = lookup-insert i j f fs h.1 in
      rw a (elim (Bool-cases (k == i)) [
        | inl b ↦ let c : (j == i) ≡ false = ground (arith, b, h.0) in rw (b, c) refl
        | inr b ↦ rw b rest
      ])
]

insert-Fresh :
    (i j : ℕ) (f : Fragment) (fs : Fragments)
    → (j == i) ≡ false
    → Fresh i fs
    → Fresh i (insert_fragment (j, f) fs)
unfolding insert_fragment
insert-Fresh i j f [] h k = (h, tt)
insert-Fresh i j f ((l, g) ∷ fs) h k =
    let rest = insert-Fresh i j f fs h k.1 in
    elim (Bool-cases (ltb j l)) [ inl a ↦ rw a (h, k) | inr a ↦ rw a (k.0, rest) ]

sort-Fresh : (i : ℕ) (fs : Fragments) → Fresh i fs → Fresh i (sort_fragments fs)
unfolding sort_fragments
sort-Fresh i [] h = tt
sort-Fresh i ((j, f) ∷ fs) h = insert-Fresh i j f (sort_fragments fs) h.0 (sort-Fresh i fs h.1)

pub sort-From : (fs : Fragments) → IsMap fs → From 0 (sort_fragments fs)
unfolding sort_fragments
sort-From [] h = tt
sort-From ((j, f) ∷ fs) h =
    insert-From 0 j f (sort_fragments fs) (omega arith) (sort-Fresh j fs h.0) (sort-From fs h.1)

pub lookup-sort : (i : ℕ) (fs : Fragments) → IsMap fs → lookup i (sort_fragments fs) ≡ lookup i fs
unfolding sort_fragments
lookup-sort i [] h = refl
lookup-sort i ((j, f) ∷ fs) h =
    lookup-insert i j f (sort_fragments fs) (sort-Fresh j fs h.0)
    ∙ ap (λ o. if j == i then some f else o) (lookup-sort i fs h.1)

below_none : (i n : ℕ) (fs : Fragments) → i < n → From n fs → lookup i fs ≡ none
below_none i n [] h s = refl
below_none i n ((j, f) ∷ fs) h s =
    let c : (j == i) ≡ false = ground (arith, h, s.0) in
    rw c (below_none i (j + 1) fs (omega (arith, h, s.0)) s.1)

pub lookup_head : (i : ℕ) (f : Fragment) (fs : Fragments) → lookup i ((i, f) ∷ fs) ≡ some f
lookup_head i f fs = let c : (i == i) ≡ true = ground arith in rw c refl

-- An index below all of the right is not on the left.
no_lower :
    (i j : ℕ) (f g : Fragment) (fs gs : Fragments)
    → i < j
    → From (j + 1) gs
    → lookup i ((i, f) ∷ fs) ≢ lookup i ((j, g) ∷ gs)
no_lower i j f g fs gs l t e =
    cc (lookup_head i f fs, e, below_none i j ((j, g) ∷ gs) l (omega arith, t))

tails_agree :
    (i : ℕ) (f : Fragment) (fs gs : Fragments)
    → From (i + 1) fs
    → From (i + 1) gs
    → ((k : ℕ) → lookup k ((i, f) ∷ fs) ≡ lookup k ((i, f) ∷ gs))
    → (k : ℕ) → lookup k fs ≡ lookup k gs
tails_agree i f fs gs s t h k = elim (Bool-cases (i == k)) [
  | inl b ↦
      let l : k < i + 1 = ground (arith, b) in
      below_none k (i + 1) fs l s ∙ sym (below_none k (i + 1) gs l t)
  | inr b ↦ sym (rw b refl) ∙ h k ∙ rw b refl
]

-- Sorted fragments with the same lookups are the same.
pub From-unique :
    (n : ℕ) (fs gs : Fragments)
    → From n fs
    → From n gs
    → ((i : ℕ) → lookup i fs ≡ lookup i gs)
    → fs ≡ gs
From-unique n [] [] s t h = refl
From-unique n [] ((j, g) ∷ gs) s t h = cc (h j, lookup_head j g gs)
From-unique n ((i, f) ∷ fs) [] s t h = cc (h i, lookup_head i f fs)
From-unique n ((i, f) ∷ fs) ((j, g) ∷ gs) s t h = elim (Bool-cases (ltb i j)) [
  | inl a ↦ absurd (no_lower i j f g fs gs (ground (arith, a)) t.1 (h i))
  | inr a ↦ elim (Bool-cases (ltb j i)) [
    | inl b ↦ absurd (no_lower j i g f gs fs (ground (arith, b)) s.1 (sym (h j)))
    | inr b ↦
        let p : j ≡ i = ground (arith, a, b) in
        let e : lookup i ((j, g) ∷ gs) ≡ some g =
          subst (λ k. lookup k ((j, g) ∷ gs) ≡ some g) p (lookup_head j g gs) in
        let q : g ≡ f = cc (h i, lookup_head i f fs, e) in
        let r : (j, g) ∷ gs ≡ (i, f) ∷ gs = ap (λ k. (k, g) ∷ gs) p ∙ ap (λ x. (i, x) ∷ gs) q in
        let t' : From (i + 1) gs = subst (λ k. From (k + 1) gs) p t.1 in
        let tails = tails_agree i f fs gs s.1 t' (λ k. h k ∙ ap (lookup k) r) in
        ap (λ l. (i, f) ∷ l) (From-unique (i + 1) fs gs s.1 t' tails) ∙ sym r
  ]
]
