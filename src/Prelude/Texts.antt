-- ===== src/Prelude/Texts.antt =====
-- Texts: Python's truth of a text, `"".join`, and the characters of a text.
use Prim.Native.Char.{Char}
use Prim.Native.Nat.{ℕ, zero, suc}
use Prim.Native.String.{String}
use Prim.Native.String as Str
use Prim.Native.String.append
use mathlib.Core.Path.{◌≡◌, sym, ap, ◌∙◌}
use mathlib.Core.Bool.{Bool, false, not}
use mathlib.Core.List.{List, [], ◌∷◌, ◌++◌}
use text.Mathlib.TextLemmas.{append-nil, append_assoc}
use text.Mathlib.Text.{◌==◌}
use text.Mathlib.TextEquality.{eq_iff}
use mathlib.Core.Logic.{inl, inr}
use fifa_world_cup_ai_agent.Prelude.Tests.{Bool-cases}

infixr 65 ◌<>◌
abbrev pub ◌<>◌ : String → String → String
s <> t = Str.◌++◌ s t

-- `bool(s)` of a text.
abbrev pub truthy : String → Bool
truthy s = not (s == "")

-- `"".join(parts)`
abbrev pub join : List String → String
join [] = ""
join (s ∷ ss) = s <> join ss

-- The first characters of a text, `s[:n]`.
abbrev pub take_chars : ℕ → String → String
take_chars zero s = ""
take_chars (suc n) Str.[] = ""
take_chars (suc n) (Str.◌∷◌ c s) = let rest = take_chars n s in Str.◌∷◌ c rest

-- The characters of a text.
abbrev pub chars : String → List Char
chars Str.[] = []
chars (Str.◌∷◌ c s) = c ∷ chars s

pub chars-append : (s t : String) → chars (s <> t) ≡ chars s ++ chars t
chars-append Str.[] t = ap chars (append.nil t)
chars-append (Str.◌∷◌ c s) t = ap chars (append.cons c s t) ∙ ap (λ l. c ∷ l) (chars-append s t)

pub text_append_assoc : (s t u : String) → (s <> t) <> u ≡ s <> (t <> u)
text_append_assoc = append_assoc

-- A falsy text is the empty one.
pub falsy_empty : (s : String) → truthy s ≡ false → s ≡ ""
falsy_empty s h = elim (Bool-cases (s == "")) [
  | inl e ↦ (eq_iff s "").0 e
  | inr e ↦ cc (h, ap not e)
]

pub nil_append : (s : String) → "" <> s ≡ s
nil_append s = append.nil s

pub append_nil : (s : String) → s <> "" ≡ s
append_nil = append-nil

pub join-append : (ss ts : List String) → join (ss ++ ts) ≡ join ss <> join ts
join-append [] ts = sym (append.nil (join ts))
join-append (s ∷ ss) ts =
    ap (λ t. s <> t) (join-append ss ts) ∙ sym (append_assoc s (join ss) (join ts))
