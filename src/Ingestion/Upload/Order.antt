-- ===== src/Ingestion/Upload/Order.antt =====
-- The order in which the files of a batch are ingested.
use fifa_world_cup_ai_agent.Prelude.{
  ℕ, ◌≤◌, ◌≡◌, refl, sym, subst, ap, ◌∙◌, String, true, Bool-cases, inl, inr, Option, Option-cases,
  some, is_some, List, [], ◌∷◌, All, if◌then◌else◌, str_eq, str_eq_iff, leb, arith,
}
use fifa_world_cup_ai_agent.Ingestion.Upload.Files.{
  ResolvedFile, BatchResolution, filename_to_table, table_in, resolve_table_name,
  ingestion_order_index, resolve_files, with_keys, insert_file, sort_files, without_keys,
  resolve_and_order_files,
}

-- The files of one table, in their order.
abbrev pub files_of : String → List ResolvedFile → List ResolvedFile
files_of t [] = []
files_of t (f ∷ fs) = let rest = files_of t fs in if str_eq f.table_name t then f ∷ rest else rest

-- Each file's table comes no later in the fixed order than those of the files after it.
abbrev pub NotAfter : ResolvedFile → ResolvedFile → Type 0
NotAfter f g =
    (i j : ℕ)
    → ingestion_order_index f.table_name ≡ some i
    → ingestion_order_index g.table_name ≡ some j
    → i ≤ j

abbrev pub IsOrdered : List ResolvedFile → Type 0
IsOrdered [] = Unit
IsOrdered (f ∷ fs) = All (λ (g : ResolvedFile). NotAfter f g) fs × IsOrdered fs

abbrev Keyed : Type 0
Keyed = ℕ × ResolvedFile

-- The key is the index of the file's table.
abbrev IsKeyed : Keyed → Type 0
IsKeyed p = ingestion_order_index p.1.table_name ≡ some p.0

abbrev Sorted : List Keyed → Type 0
Sorted [] = Unit
Sorted (p ∷ ps) = All (λ (q : Keyed). p.0 ≤ q.0) ps × Sorted ps

insert-All :
    (P : Keyed → Type 0) (p : Keyed) (ps : List Keyed) → P p → All P ps → All P (insert_file p ps)
unfolding insert_file
insert-All P p [] h k = (h, tt)
insert-All P p (q ∷ qs) h k =
    let rest = insert-All P p qs h k.1 in
    elim (Bool-cases (leb p.0 q.0)) [ inl t ↦ rw t (h, k) | inr t ↦ rw t (k.0, rest) ]

All-le :
    (m n : ℕ) (ps : List Keyed)
    → m ≤ n
    → All (λ (q : Keyed). n ≤ q.0) ps
    → All (λ (q : Keyed). m ≤ q.0) ps
All-le m n [] h k = tt
All-le m n (q ∷ qs) h k = (omega (arith, k.0), All-le m n qs h k.1)

insert-Sorted : (p : Keyed) (ps : List Keyed) → Sorted ps → Sorted (insert_file p ps)
unfolding insert_file
insert-Sorted p [] h = (tt, tt)
insert-Sorted p (q ∷ qs) h =
    let rest = insert-Sorted p qs h.1 in
    elim (Bool-cases (leb p.0 q.0)) [
      | inl t ↦ let le : p.0 ≤ q.0 = ground (arith, t) in rw t ((le, All-le p.0 q.0 qs le h.0), h)
      | inr t ↦
          let le : q.0 ≤ p.0 = ground (arith, t) in
          rw t (insert-All (λ (r : Keyed). q.0 ≤ r.0) p qs le h.0, rest)
    ]

sort-Sorted : (ps : List Keyed) → Sorted (sort_files ps)
unfolding sort_files
sort-Sorted [] = tt
sort-Sorted (p ∷ ps) = insert-Sorted p (sort_files ps) (sort-Sorted ps)

sort-All : (P : Keyed → Type 0) (ps : List Keyed) → All P ps → All P (sort_files ps)
unfolding sort_files
sort-All P [] h = tt
sort-All P (p ∷ ps) h = insert-All P p (sort_files ps) h.0 (sort-All P ps h.1)

-- Files of one table have one key.
one_key :
    (f g : ResolvedFile) (t : String) (i j : ℕ)
    → IsKeyed (i, f)
    → IsKeyed (j, g)
    → str_eq f.table_name t ≡ true
    → str_eq g.table_name t ≡ true
    → i ≡ j
one_key f g t i j h k p q =
    let same : f.table_name ≡ g.table_name =
      (str_eq_iff f.table_name t).0 p ∙ sym ((str_eq_iff g.table_name t).0 q) in
    let e : some i ≡ some j = sym h ∙ ap ingestion_order_index same ∙ k in cc e

-- An insertion keeps the order within every table, the new file first.
insert-files_of :
    (t : String) (p : Keyed) (ps : List Keyed)
    → IsKeyed p
    → All IsKeyed ps
    → files_of t (without_keys (insert_file p ps)) ≡ files_of t (p.1 ∷ without_keys ps)
unfolding insert_file
insert-files_of t p [] h k = refl
insert-files_of t (i, f) ((j, g) ∷ qs) h k = elim (Bool-cases (leb i j)) [
  | inl le ↦ rw le refl
  | inr le ↦
      let rest = insert-files_of t (i, f) qs h k.1 in
      elim (Bool-cases (str_eq g.table_name t)) [
        | inr b ↦ rw (le, b) rest
        | inl b ↦ elim (Bool-cases (str_eq f.table_name t)) [
          | inr a ↦ rw (le, b, a) (ap (λ l. g ∷ l) (rest ∙ rw a refl))
          | inl a ↦ let same = one_key f g t i j h k.0 a b in absurd (ground (arith, le, same))
        ]
      ]
]

sort-files_of :
    (t : String) (ps : List Keyed)
    → All IsKeyed ps
    → files_of t (without_keys (sort_files ps)) ≡ files_of t (without_keys ps)
unfolding sort_files
sort-files_of t [] h = refl
sort-files_of t ((i, f) ∷ ps) h =
    insert-files_of t (i, f) (sort_files ps) h.0 (sort-All IsKeyed ps h.1)
    ∙ ap (λ l. if str_eq f.table_name t then f ∷ l else l) (sort-files_of t ps h.1)

indexed :
    (names : List (String × String)) (filename table : String)
    → All (λ (p : String × String). is_some (ingestion_order_index p.1) ≡ true) names
    → table_in names filename ≡ some table
    → is_some (ingestion_order_index table) ≡ true
indexed [] filename table h e = cc
indexed ((name, t) ∷ names) filename table h e = elim (Bool-cases (str_eq name filename)) [
  | inl b ↦
      let p : t ≡ table = ground (arith, b, e) in
      subst (λ x. is_some (ingestion_order_index x) ≡ true) p h.0
  | inr b ↦ indexed names filename table h.1 (ground (arith, b, e))
]

-- A file whose table was looked up by its name.
abbrev pub IsResolved : ResolvedFile → Type 0
IsResolved f = resolve_table_name f.filename ≡ some f.table_name

resolved-index :
    (f : ResolvedFile) → IsResolved f → is_some (ingestion_order_index f.table_name) ≡ true
unfolding resolve_table_name ingestion_order_index
resolved-index f h =
    indexed filename_to_table f.filename f.table_name
      (refl, (refl, (refl, (refl, (refl, (refl, (refl, (refl, (refl, (refl, tt)))))))))) h

resolve_files-IsResolved :
    (files : List (String × List ℕ)) → All IsResolved (resolve_files files).accepted
unfolding resolve_files
resolve_files-IsResolved [] = tt
resolve_files-IsResolved ((filename, csv_bytes) ∷ files) =
    let rest = resolve_files-IsResolved files in
    elim (Option-cases (resolve_table_name filename)) [
      | inl e ↦ rw e rest
      | inr (table, e) ↦ rw e (e, rest)
    ]

with_keys-total :
    (fs : List ResolvedFile)
    → All IsResolved fs
    → (keyed : List Keyed) × (with_keys fs ≡ some keyed)
      × All IsKeyed keyed
      × (without_keys keyed ≡ fs)
unfolding with_keys
with_keys-total [] h = ([], refl, tt, refl)
with_keys-total (f ∷ fs) h =
    let (keyed, c, k, w) = with_keys-total fs h.1 in
    elim (Option-cases (ingestion_order_index f.table_name)) [
      | inl e ↦
          let some_index = resolved-index f h.0 in
          cc (some_index, ap (λ (o : Option ℕ). is_some o) e)
      | inr (i, e) ↦ ((i, f) ∷ keyed, rw (e, c) refl, (e, k), ap (λ l. f ∷ l) w)
    ]

keyed-NotAfter :
    (p : Keyed) (ps : List Keyed)
    → IsKeyed p
    → All IsKeyed ps
    → All (λ (q : Keyed). p.0 ≤ q.0) ps
    → All (λ (g : ResolvedFile). NotAfter p.1 g) (without_keys ps)
keyed-NotAfter p [] h k s = tt
keyed-NotAfter p ((j, g) ∷ ps) h k s = (
  λ m n a b.
      let x : some m ≡ some p.0 = sym a ∙ h in
      let y : some n ≡ some j = sym b ∙ k.0 in
      let u : m ≡ p.0 = cc x in let v : n ≡ j = cc y in omega (arith, u, v, s.0),
  keyed-NotAfter p ps h k.1 s.1,
)

Sorted-IsOrdered : (ps : List Keyed) → All IsKeyed ps → Sorted ps → IsOrdered (without_keys ps)
Sorted-IsOrdered [] k s = tt
Sorted-IsOrdered ((i, f) ∷ ps) k s =
    (keyed-NotAfter (i, f) ps k.0 k.1 s.0, Sorted-IsOrdered ps k.1 s.1)

pub resolve_and_order_files-IsOrdered :
    (files : List (String × List ℕ))
    → (resolution : BatchResolution) × (resolve_and_order_files files ≡ some resolution)
      × IsOrdered resolution.accepted
      × ((t : String) → files_of t resolution.accepted ≡ files_of t (resolve_files files).accepted)
      × (resolution.rejected ≡ (resolve_files files).rejected)
unfolding resolve_and_order_files
resolve_and_order_files-IsOrdered files =
    let (keyed, c, k, w) =
      with_keys-total (resolve_files files).accepted (resolve_files-IsResolved files) in
    (
      record {
        accepted = without_keys (sort_files keyed);
        rejected = (resolve_files files).rejected;
      },
      rw c refl,
      Sorted-IsOrdered (sort_files keyed) (sort-All IsKeyed keyed k) (sort-Sorted keyed),
      λ t. sort-files_of t keyed k ∙ ap (files_of t) w,
      refl,
    )
