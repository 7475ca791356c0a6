-- ===== src/Ingestion/Specs/Tests.antt =====
-- A Python whose numbers and dates are texts, and the theorems of this folder at it.
use fifa_world_cup_ai_agent.Prelude.{
  ℕ, ◌≡◌, refl, sym, subst, ap, String, Bool, true, false, not, All, ok, Eq, str_eq, str_eq_iff,
  str_eq_refl,
}
use fifa_world_cup_ai_agent.Ingestion.Values.{
  Python, Value, null, int_value, float_value, str_value, bool_value, date_value, time_value,
}
use fifa_world_cup_ai_agent.Ingestion.Csv.{TableIngestionSpec}
use fifa_world_cup_ai_agent.Ingestion.Csv.Chunks.{MakesKeys}
use fifa_world_cup_ai_agent.Ingestion.Specs.Transfermarkt.{transfermarkt_specs}
use fifa_world_cup_ai_agent.Ingestion.Specs.Keys.{transfermarkt_specs-MakesKeys}

abbrev texts : Python
texts = record {
  Int = String;
  Float = String;
  Date = String;
  Time = String;
  int = λ s. ok s;
  float = λ s. ok s;
  date_fromisoformat = λ s. ok s;
  time_fromisoformat = λ s. ok s;
  strip = λ s. s;
  lower = λ s. s;
  first_part = λ s. s;
}

abbrev flag_eq : Bool → Bool → Bool
flag_eq true b = b
flag_eq false b = not b

abbrev value_beq : Value texts → Value texts → Bool
value_beq null null = true
value_beq (int_value s) (int_value t) = str_eq s t
value_beq (float_value s) (float_value t) = str_eq s t
value_beq (str_value s) (str_value t) = str_eq s t
value_beq (bool_value a) (bool_value b) = flag_eq a b
value_beq (date_value s) (date_value t) = str_eq s t
value_beq (time_value s) (time_value t) = str_eq s t
value_beq _ _ = false

flag_eq-eq : (a b : Bool) → flag_eq a b ≡ true → a ≡ b
flag_eq-eq true b h = sym h
flag_eq-eq false true h = cc
flag_eq-eq false false h = refl

value_beq-eq : (a b : Value texts) → value_beq a b ≡ true → a ≡ b
value_beq-eq null null h = refl
value_beq-eq (int_value s) (int_value t) h = ap int_value ((str_eq_iff s t).0 h)
value_beq-eq (float_value s) (float_value t) h = ap float_value ((str_eq_iff s t).0 h)
value_beq-eq (str_value s) (str_value t) h = ap str_value ((str_eq_iff s t).0 h)
value_beq-eq (bool_value a) (bool_value b) h = ap bool_value (flag_eq-eq a b h)
value_beq-eq (date_value s) (date_value t) h = ap date_value ((str_eq_iff s t).0 h)
value_beq-eq (time_value s) (time_value t) h = ap time_value ((str_eq_iff s t).0 h)
value_beq-eq _ _ h = cc

value_beq_refl : (a : Value texts) → value_beq a a ≡ true
value_beq_refl null = refl
value_beq_refl (int_value s) = str_eq_refl s
value_beq_refl (float_value s) = str_eq_refl s
value_beq_refl (str_value s) = str_eq_refl s
value_beq_refl (bool_value true) = refl
value_beq_refl (bool_value false) = refl
value_beq_refl (date_value s) = str_eq_refl s
value_beq_refl (time_value s) = str_eq_refl s

instance abbrev value_eq : Eq (Value texts)
value_eq = record {
  beq = value_beq;
  beq_iff = λ a b. (value_beq-eq a b, λ p. subst (λ x. value_beq a x ≡ true) p (value_beq_refl a));
}

abbrev counted : ℕ → String
counted n = "n"

transfermarkt_specs-MakesKeys_example :
    All
      (λ (spec : TableIngestionSpec (Value texts)). MakesKeys counted spec)
      (transfermarkt_specs texts null)
transfermarkt_specs-MakesKeys_example = transfermarkt_specs-MakesKeys texts counted null
