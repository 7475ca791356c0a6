-- ===== src/Json.antt =====
-- JSON values, as Python's `json` module reads and writes them: the `dict` payloads of tool results,
-- stream entries and messages. A number is kept as its literal text, since the program only carries
-- the numbers of a widget from a tool to the browser.
use fifa_world_cup_ai_agent.Prelude.{
  ◌≡◌, refl, arith, str_eq_iff, str_eq_refl, String, Bool, Option, none, some, if◌then◌else◌,
  str_eq,
}

mutual
  pub data Json : Type 0 where
    null : Json
    bool : Bool → Json
    number : String → Json
    string : String → Json
    array : Items → Json
    object : Fields → Json

  pub data Items : Type 0 where
    nil : Items
    cons : Json → Items → Items

  pub data Fields : Type 0 where
    end : Fields
    field : String → Json → Fields → Fields

-- `d[key]`, where `none` is the `KeyError`.
abbrev pub get : String → Fields → Option Json
get k end = none
get k (field j v fs) = if str_eq j k then some v else get k fs

-- `d[key] = value`: in place where the key is, else at the end.
abbrev pub set : String → Json → Fields → Fields
set k w end = field k w end
set k w (field j v fs) = if str_eq j k then field j w fs else field j v (set k w fs)

-- `{**base, **more}`
abbrev pub merge : Fields → Fields → Fields
merge base end = base
merge base (field k v more) = merge (set k v base) more

pub get-set :
    (k j : String) (w : Json) (fs : Fields)
    → get j (set k w fs) ≡ (if str_eq k j then some w else get j fs)
get-set k j w end = refl
get-set k j w (field i v fs) =
    ground (arith, str_eq_iff k j, str_eq_iff i k, str_eq_iff i j, get-set k j w fs)

pub get-set_self : (k : String) (w : Json) (fs : Fields) → get k (set k w fs) ≡ some w
get-set_self k w fs = simp (get-set, str_eq_refl)
