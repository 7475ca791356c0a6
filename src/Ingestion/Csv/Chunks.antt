-- ===== src/Ingestion/Csv/Chunks.antt =====
-- The chunked upsert against the plain one: a row at a time, the last row of a key wins.
use fifa_world_cup_ai_agent.Prelude.{
  ℕ, suc, ◌+◌, ◌≤◌, ◌≡◌, refl, sym, subst, ap, ◌∙◌, String, Bool-cases, Option, none, some,
  Result-cases, ◌<◌, List, [], ◌∷◌, ◌++◌, append_assoc, append-nil, All-append, Result, ok, err, Eq,
  list_beq, if◌then◌else◌, inl, inr, length, length-append, arith, leb,
}
use fifa_world_cup_ai_agent.Ingestion.Csv.{
  Failure, RawRow, Row, Key, TableIngestionSpec, Repository, key_of, parse_row, values, flush,
  at_end, chunked, finish, proceed, advance, ingest_from, ingest_rows,
}
use fifa_world_cup_ai_agent.Ingestion.Csv.Dedupe.{latest, IsKeyed, HasKeys, dedupe-Deduped}

module _ {V : Type 0} ⦃e : Eq V⦄ where
  -- What a table promises of an upsert of rows with different keys that does not raise: afterwards
  -- the row of a key is the one that was given for it, or else the old one.
  pub record UpsertTable (repository : Repository V) (table : String) (columns : List String)
      : Type 0 where
    pub read : repository.Store → Key V → Option (Row V)
    pub upsert :
        (kept : List (Key V × Row V)) (store after : repository.Store)
        → IsKeyed kept
        → HasKeys columns kept
        → repository.upsert_many table (values kept) columns store ≡ ok after
        → (k : Key V) → read after k ≡ latest k kept (read store k)

  pub latest-append :
      (k : Key V) (xs ys : List (Key V × Row V)) (old : Option (Row V))
      → latest k (xs ++ ys) old ≡ latest k ys (latest k xs old)
  latest-append k [] ys old = refl
  latest-append k ((j, row) ∷ xs) ys old =
      latest-append k xs ys (if list_beq j k then some row else old)

  values-snoc :
      (ps : List (Key V × Row V)) (k : Key V) (row : Row V)
      → values (ps ++ (k, row) ∷ []) ≡ values ps ++ row ∷ []
  values-snoc [] k row = refl
  values-snoc ((j, r) ∷ ps) k row = ap (λ l. r ∷ l) (values-snoc ps k row)

  length-values : (ps : List (Key V × Row V)) → length (values ps) ≡ length ps
  length-values [] = refl
  length-values ((j, r) ∷ ps) = ap suc (length-values ps)

  module _ (decimal : ℕ → String) (spec : TableIngestionSpec V) where
    -- The rows parse, from an index on, to these keyed rows.
    pub data Parsed : ℕ → List RawRow → List (Key V × Row V) → Type 0 where
      done : {i : ℕ} → Parsed i [] []
      one :
          {i : ℕ} {raw : RawRow} {rows : List RawRow} {k : Key V} {row : Row V}
          {qs : List (Key V × Row V)}
          → parse_row decimal spec i raw ≡ ok row
          → key_of spec.conflict_columns row ≡ ok k
          → Parsed (suc i) rows qs
          → Parsed i (raw ∷ rows) ((k, row) ∷ qs)

    -- A row that parses has the columns of its key.
    abbrev pub MakesKeys : Type 0
    MakesKeys =
        (i : ℕ) (raw : RawRow) (row : Row V)
        → parse_row decimal spec i raw ≡ ok row
        → (k : Key V) × (key_of spec.conflict_columns row ≡ ok k)

    module _ (repository : Repository V)
        (table : UpsertTable repository spec.target_table spec.conflict_columns)
        (chunk_size : ℕ) where
      open repository use {Store}
      open table use {read}

      -- The store went from one to the other by these rows, one after another.
      abbrev pub Became : Store → List (Key V × Row V) → Store → Type 0
      Became store ps after = (k : Key V) → read after k ≡ latest k ps (read store k)

      -- The rows with `ps` before them: `written` are in the store, and `pending`, no more than a
      -- chunk, are not.
      pub record Cut (index : ℕ) (ps : List (Key V × Row V)) (before : List RawRow)
          (pending : List (Key V × Row V)) (store after : Store) : Type 0 where
        pub qs : List (Key V × Row V)
        pub written : List (Key V × Row V)
        pub parsed : Parsed index before qs
        pub parts : ps ++ qs ≡ written ++ pending
        pub short : length pending ≤ chunk_size
        pub became : Became store written after

      -- How a run fails: at the first row that does not parse, with its error, or at the upsert of a
      -- chunk, one row for each of its keys, with the error of the database.
      pub data Failed (index : ℕ) (ps : List (Key V × Row V)) (rows : List RawRow)
          (store after : Store) (x : Failure) : Type 0 where
        bad_row :
            (before : List RawRow) (raw : RawRow) (rest : List RawRow)
            → rows ≡ before ++ raw ∷ rest
            → parse_row decimal spec (index + length before) raw ≡ err x
            → (pending : List (Key V × Row V)) → Cut index ps before pending store after
            → length pending < chunk_size
            → Failed index ps rows store after x
        bad_upsert :
            (before rest : List RawRow)
            → rows ≡ before ++ rest
            → (pending : List (Key V × Row V)) → Cut index ps before pending store after
            → (kept : List (Key V × Row V)) → IsKeyed kept
            → ((k : Key V) → latest k kept none ≡ latest k pending none)
            → repository.upsert_many spec.target_table (values kept) spec.conflict_columns after
              ≡ err x
            → Failed index ps rows store after x

      -- With `ps` in the batch: all rows parse and are written, or the run fails.
      abbrev pub Outcome :
          ℕ → List (Key V × Row V) → List RawRow → Store → Result Failure ℕ × Store → Type 0
      Outcome index ps rows store (ok total, after) =
          (qs : List (Key V × Row V)) × Parsed index rows qs × Became store (ps ++ qs) after
      Outcome index ps rows store (err x, after) = Failed index ps rows store after x

      Became-append :
          (a b c : Store) (xs ys : List (Key V × Row V))
          → Became a xs b
          → Became b ys c
          → Became a (xs ++ ys) c
      Became-append a b c xs ys f g k =
          g k ∙ ap (latest k ys) (f k) ∙ sym (latest-append k xs ys (read a k))

      -- An upsert of a batch: its rows are in the store, or the database raised.
      data Flushed (ps : List (Key V × Row V)) (store : Store)
          : Result Failure (ℕ × Store) → Type 0 where
        wrote :
            (written : ℕ) (after : Store)
            → Became store ps after
            → Flushed ps store (ok (written, after))
        raised :
            (x : Failure) (kept : List (Key V × Row V))
            → IsKeyed kept
            → ((k : Key V) → latest k kept none ≡ latest k ps none)
            → repository.upsert_many spec.target_table (values kept) spec.conflict_columns store
              ≡ err x
            → Flushed ps store (err x)

      flush-Flushed :
          (ps : List (Key V × Row V)) (store : Store)
          → HasKeys spec.conflict_columns ps
          → Flushed ps store (flush decimal repository spec (values ps) store)
      unfolding flush
      flush-Flushed ps store h =
          let d = dedupe-Deduped spec.conflict_columns ps h in
          elim (Result-cases (
            repository.upsert_many spec.target_table (values d.kept) spec.conflict_columns store)) [
              | inl (after, u) ↦
                  rw (d.computed, u)
                    (wrote (length (values d.kept)) after (λ k.
                      table.upsert d.kept store after d.keyed d.has_keys u k
                      ∙ d.same_latest k (read store k)))
              | inr (x, u) ↦
                  rw (d.computed, u) (raised x d.kept d.keyed (λ k. d.same_latest k none) u)
            ]

      -- The row joins the batch.
      keep-Cut :
          (index : ℕ) (ps : List (Key V × Row V)) (raw : RawRow) (before : List RawRow) (k : Key V)
          (row : Row V) (pending : List (Key V × Row V)) (store after : Store)
          → parse_row decimal spec index raw ≡ ok row
          → key_of spec.conflict_columns row ≡ ok k
          → Cut (suc index) (ps ++ (k, row) ∷ []) before pending store after
          → Cut index ps (raw ∷ before) pending store after
      keep-Cut index ps raw before k row pending store after p q c = record {
        qs = (k, row) ∷ c.qs;
        written = c.written;
        parsed = one p q c.parsed;
        parts = sym (append_assoc ps ((k, row) ∷ []) c.qs) ∙ c.parts;
        short = c.short;
        became = c.became;
      }

      keep-Outcome :
          (index : ℕ) (ps : List (Key V × Row V)) (raw : RawRow) (rows : List RawRow) (k : Key V)
          (row : Row V) (store : Store) (result : Result Failure ℕ × Store)
          → parse_row decimal spec index raw ≡ ok row
          → key_of spec.conflict_columns row ≡ ok k
          → Outcome (suc index) (ps ++ (k, row) ∷ []) rows store result
          → Outcome index ps (raw ∷ rows) store result
      keep-Outcome index ps raw rows k row store (ok total, after) p q (qs, parsed, b) = (
        (k, row) ∷ qs,
        one p q parsed,
        subst (λ l. Became store l after) (append_assoc ps ((k, row) ∷ []) qs) b,
      )
      keep-Outcome index ps raw rows k row store (err x, after) p q
            (bad_row before bad rest s f pending c n) =
          bad_row (raw ∷ before) bad rest (ap (λ l. raw ∷ l) s)
            (subst (λ i. parse_row decimal spec i bad ≡ err x) (omega arith) f) pending
            (keep-Cut index ps raw before k row pending store after p q c) n
      keep-Outcome index ps raw rows k row store (err x, after) p q
            (bad_upsert before rest s pending c d i l u) =
          bad_upsert (raw ∷ before) rest (ap (λ l. raw ∷ l) s) pending
            (keep-Cut index ps raw before k row pending store after p q c) d i l u

      -- The row fills the batch, which is written.
      write-Cut :
          (index : ℕ) (ps : List (Key V × Row V)) (before : List RawRow)
          (pending : List (Key V × Row V)) (store middle after : Store)
          → Became store ps middle
          → Cut index [] before pending middle after
          → Cut index ps before pending store after
      write-Cut index ps before pending store middle after m c = record {
        qs = c.qs;
        written = ps ++ c.written;
        parsed = c.parsed;
        parts = ap (λ l. ps ++ l) c.parts ∙ sym (append_assoc ps c.written pending);
        short = c.short;
        became = Became-append store middle after ps c.written m c.became;
      }

      write-Outcome :
          (index : ℕ) (ps : List (Key V × Row V)) (rows : List RawRow) (store middle : Store)
          (result : Result Failure ℕ × Store)
          → Became store ps middle
          → Outcome index [] rows middle result
          → Outcome index ps rows store result
      write-Outcome index ps rows store middle (ok total, after) m (qs, parsed, b) =
          (qs, parsed, Became-append store middle after ps qs m b)
      write-Outcome index ps rows store middle (err x, after) m
            (bad_row before bad rest s f pending c n) =
          bad_row before bad rest s f pending
            (write-Cut index ps before pending store middle after m c) n
      write-Outcome index ps rows store middle (err x, after) m
            (bad_upsert before rest s pending c d i l u) =
          bad_upsert before rest s pending
            (write-Cut index ps before pending store middle after m c) d i l u

      -- Nothing of the batch is written yet.
      none_written :
          (index : ℕ) (ps : List (Key V × Row V)) (store : Store)
          → length ps ≤ chunk_size
          → Cut index ps [] ps store store
      none_written index ps store n = record {
        qs = [];
        written = [];
        parsed = done;
        parts = append-nil ps;
        short = n;
        became = λ k. refl;
      }

      refused_at_once :
          (index : ℕ) (ps : List (Key V × Row V)) (rows : List RawRow) (store : Store) (x : Failure)
          (kept : List (Key V × Row V))
          → length ps ≤ chunk_size
          → IsKeyed kept
          → ((k : Key V) → latest k kept none ≡ latest k ps none)
          → repository.upsert_many spec.target_table (values kept) spec.conflict_columns store
            ≡ err x
          → Failed index ps rows store store x
      refused_at_once index ps rows store x kept n d l u =
          bad_upsert [] rows refl ps (none_written index ps store n) kept d l u

      end-Outcome :
          (index : ℕ) (ps : List (Key V × Row V)) (total : ℕ) (store : Store)
          → HasKeys spec.conflict_columns ps
          → length ps ≤ chunk_size
          → Outcome index ps [] store
              (at_end decimal repository spec chunk_size (values ps) total store)
      end-Outcome index [] total store h n = ([], done, λ k. refl)
      end-Outcome index ((j, r) ∷ ps) total store h n =
          go (flush decimal repository spec (values ((j, r) ∷ ps)) store)
            (flush-Flushed ((j, r) ∷ ps) store h)
        where
          go :
              (f : Result Failure (ℕ × Store))
              → Flushed ((j, r) ∷ ps) store f
              → Outcome index
                  ((j, r) ∷ ps)
                  []
                  store
                  (finish decimal repository spec chunk_size total store f)
          go (ok (n, middle)) (wrote written after b) =
              ([], done, subst (λ l. Became store l after) (sym (append-nil ((j, r) ∷ ps))) b)
          go (err y) (raised x kept d l u) =
              refused_at_once index ((j, r) ∷ ps) [] store x kept n d l u

      -- A turn of the loop, if the rest of the loop keeps its promise.
      chunked-Outcome :
          (go : List (Row V) → ℕ → Store → Result Failure ℕ × Store) (index : ℕ)
          (rows : List RawRow)
          → ((ps : List (Key V × Row V)) (total : ℕ) (store : Store)
              → HasKeys spec.conflict_columns ps
              → suc (length ps) ≤ chunk_size
              → Outcome index ps rows store (go (values ps) total store))
          → (ps : List (Key V × Row V)) (total : ℕ) (store : Store)
          → HasKeys spec.conflict_columns ps
          → suc 0 ≤ chunk_size
          → length ps ≤ chunk_size
          → Outcome index ps rows store (
              chunked decimal repository spec chunk_size go
                (values ps)
                total
                store
                (leb chunk_size (length (values ps))))
      chunked-Outcome go index rows ih ps total store h n m =
          elim (Bool-cases (leb chunk_size (length (values ps)))) [
            | inl t ↦
                rw t (
                  full (flush decimal repository spec (values ps) store) (flush-Flushed ps store h))
            | inr t ↦ rw t (ih ps total store h (let l = length-values ps in ground (arith, t, l)))
          ]
        where
          full :
              (f : Result Failure (ℕ × Store))
              → Flushed ps store f
              → Outcome index ps rows store
                  (proceed decimal repository spec chunk_size (go []) total store f)
          full (ok (k, middle)) (wrote written after b) =
              write-Outcome index ps rows store after _ b (ih [] (total + written) after tt n)
          full (err y) (raised x kept d l u) = refused_at_once index ps rows store x kept m d l u

      advance-Outcome :
          (go : List (Row V) → ℕ → Store → Result Failure ℕ × Store) (index : ℕ) (raw : RawRow)
          (rows : List RawRow) (parsed : Result Failure (Row V))
          → parse_row decimal spec index raw ≡ parsed
          → MakesKeys
          → ((ps : List (Key V × Row V)) (total : ℕ) (store : Store)
              → HasKeys spec.conflict_columns ps
              → suc (length ps) ≤ chunk_size
              → Outcome (suc index) ps rows store (go (values ps) total store))
          → (ps : List (Key V × Row V)) (total : ℕ) (store : Store)
          → HasKeys spec.conflict_columns ps
          → suc (length ps) ≤ chunk_size
          → Outcome index ps
              (raw ∷ rows)
              store
              (advance decimal repository spec chunk_size go (values ps) total store parsed)
      advance-Outcome go index raw rows (err x) f m ih ps total store h n =
          bad_row [] raw rows refl
            (subst (λ i. parse_row decimal spec i raw ≡ err x) (omega arith) f) ps
            (none_written index ps store (omega (arith, n))) n
      advance-Outcome go index raw rows (ok row) p m ih ps total store h n =
          let (k, q) = m index raw row p in
          let batch = ps ++ (k, row) ∷ [] in
          let keys =
            All-append (λ (p : Key V × Row V). key_of spec.conflict_columns p.1 ≡ ok p.0) ps
              ((k, row) ∷ []) h (q, tt) in
          keep-Outcome index ps raw rows k row store _ p q (
            subst
              (λ b. Outcome (suc index) batch rows store (
                chunked decimal repository spec chunk_size go b total store
                  (leb chunk_size (length b))))
              (values-snoc ps k row)
              (chunked-Outcome go (suc index) rows ih batch total store keys (omega (arith, n))
                (let l = length-append ps ((k, row) ∷ []) in omega (arith, l, n))))

      ingest_from-Outcome :
          (index : ℕ) (rows : List RawRow)
          → MakesKeys
          → (ps : List (Key V × Row V)) (total : ℕ) (store : Store)
          → HasKeys spec.conflict_columns ps
          → suc (length ps) ≤ chunk_size
          → Outcome index ps rows store
              (ingest_from decimal repository spec chunk_size index (values ps) total store rows)
      unfolding ingest_from
      ingest_from-Outcome index [] m ps total store h n =
          end-Outcome index ps total store h (omega (arith, n))
      ingest_from-Outcome index (raw ∷ rows) m ps total store h n =
          advance-Outcome
            (λ b t s. ingest_from decimal repository spec chunk_size (suc index) b t s rows) index
            raw rows (parse_row decimal spec index raw) refl m
            (ingest_from-Outcome (suc index) rows m) ps total store h n

      -- With chunks of at least one row, for a table whose rows all have their key: a run that returns
      -- has parsed all rows, and the table is the one that writing them one after another gives,
      -- whatever the chunks are. A run fails with the error of the first row that does not parse, or
      -- with that of an upsert that the database refuses, of the last row of each key of a chunk; the
      -- rows before are then written, but for at most a chunk of them, in the first case for less.
      pub ingest_rows-Outcome :
          (rows : List RawRow) (store : Store)
          → MakesKeys
          → suc 0 ≤ chunk_size
          → Outcome 0 [] rows store (ingest_rows decimal repository spec chunk_size rows store)
      unfolding ingest_rows
      ingest_rows-Outcome rows store m n = ingest_from-Outcome 0 rows m [] 0 store tt n
