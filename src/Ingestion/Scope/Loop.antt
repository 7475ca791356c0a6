-- ===== src/Ingestion/Scope/Loop.antt =====
-- What holds of the results of a scope's loop, from what holds of its rows.
use fifa_world_cup_ai_agent.Prelude.{
  ◌≡◌, refl, ◌⊎◌, inl, inr, Option, none, some, List, [], ◌∷◌, Result, ok, err, ◌>>=◌,
}
use fifa_world_cup_ai_agent.Ingestion.Csv.{RawRow}
use fifa_world_cup_ai_agent.Ingestion.Scope.{ScopeError, scope_rows, kept_then}

-- What holds of a result, and what is so when there is an exception in its place.
abbrev pub OkTo : {A : Type 0} → Type 0 → (A → Type 0) → Result ScopeError A → Type 0
OkTo Bad P (ok a) = P a
OkTo Bad P (err x) = Bad

pub OkTo-bind :
    {A B : Type 0} (Bad : Type 0) (P : A → Type 0) (Q : B → Type 0) (m : Result ScopeError A)
    (f : A → Result ScopeError B)
    → OkTo Bad P m
    → ((a : A) → m ≡ ok a → P a → OkTo Bad Q (f a))
    → OkTo Bad Q (m >>= f)
OkTo-bind Bad P Q (ok a) f h k = k a refl h
OkTo-bind Bad P Q (err x) f h k = h

pub OkTo-weaken :
    {A : Type 0} (Bad Worse : Type 0) (P : A → Type 0) (m : Result ScopeError A)
    → (Bad → Worse)
    → OkTo Bad P m
    → OkTo Worse P m
OkTo-weaken Bad Worse P (ok a) w h = h
OkTo-weaken Bad Worse P (err x) w h = w h

-- Some row has it.
abbrev pub Some : (RawRow → Type 0) → List RawRow → Type 0
Some Bad [] = ⊥
Some Bad (row ∷ rows) = Bad row ⊎ Some Bad rows

-- The rows that a table's scope leaves: each is left out for a reason, or taken as it should be.
pub data Scoped (Out : RawRow → Type 0) (Good : RawRow → RawRow → Type 0)
    : List RawRow → List RawRow → Type 0 where
  done : Scoped Out Good [] []
  left_out :
      (row : RawRow) (rows kept : List RawRow)
      → Out row
      → Scoped Out Good rows kept
      → Scoped Out Good (row ∷ rows) kept
  taken :
      (row : RawRow) (k : RawRow) (rows kept : List RawRow)
      → Good row k
      → Scoped Out Good rows kept
      → Scoped Out Good (row ∷ rows) (k ∷ kept)

abbrev pub RowOk : (RawRow → Type 0) → (RawRow → RawRow → Type 0) → RawRow → Option RawRow → Type 0
RowOk Out Good row none = Out row
RowOk Out Good row (some k) = Good row k

kept-Scoped :
    (Out : RawRow → Type 0) (Good : RawRow → RawRow → Type 0) (row : RawRow) (kept : Option RawRow)
    (rows rest : List RawRow)
    → RowOk Out Good row kept
    → Scoped Out Good rows rest
    → Scoped Out Good (row ∷ rows) (kept_then kept rest)
kept-Scoped Out Good row none rows rest h s = left_out row rows rest h s
kept-Scoped Out Good row (some k) rows rest h s = taken row k rows rest h s

pub scope_rows-Scoped :
    (Bad Out : RawRow → Type 0) (Good : RawRow → RawRow → Type 0)
    (f : RawRow → Result ScopeError (Option RawRow))
    → ((row : RawRow) → OkTo (Bad row) (RowOk Out Good row) (f row))
    → (rows : List RawRow) → OkTo (Some Bad rows) (Scoped Out Good rows) (scope_rows f rows)
unfolding scope_rows
scope_rows-Scoped Bad Out Good f h [] = done
scope_rows-Scoped Bad Out Good f h (row ∷ rows) =
    let Worse = Some Bad (row ∷ rows) in
    OkTo-bind Worse (RowOk Out Good row) (Scoped Out Good (row ∷ rows)) (f row) _
      (OkTo-weaken (Bad row) Worse (RowOk Out Good row) (f row) (λ b. inl b) (h row))
      (λ kept e good.
        OkTo-bind Worse (Scoped Out Good rows) (Scoped Out Good (row ∷ rows)) (scope_rows f rows) _
          (OkTo-weaken (Some Bad rows) Worse (Scoped Out Good rows) (scope_rows f rows) (λ b. inr b)
            (scope_rows-Scoped Bad Out Good f h rows))
          (λ rest e' s. kept-Scoped Out Good row kept rows rest good s))
