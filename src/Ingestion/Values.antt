-- ===== src/Ingestion/Values.antt =====
-- The values of parsed cells and the parsers of
-- backend/src/domain/ingestion/services/csv_parsers.py. Python's own conversions are a parameter.
use fifa_world_cup_ai_agent.Prelude.{
  String, Bool, not, ◌||◌, Result, ok, ◌>>=◌, if◌then◌else◌, str_eq, truthy,
}

-- Python's types and conversions; an error is the text of the `ValueError`.
pub record Python : Type 1 where
  pub Int : Type 0
  pub Float : Type 0
  pub Date : Type 0
  pub Time : Type 0
  pub int : String → Result String Int
  pub float : String → Result String Float
  pub date_fromisoformat : String → Result String Date
  pub time_fromisoformat : String → Result String Time
  pub strip : String → String
  pub lower : String → String
  -- `value.split(" ")[0]`
  pub first_part : String → String

module _ (python : Python) where
  open python use {
    Int, Float, Date, Time, int, float, date_fromisoformat, time_fromisoformat, strip, lower,
    first_part,
  }

  -- A cell after parsing; `null` is `None`.
  pub data Value : Type 0 where
    null : Value
    int_value : Int → Value
    float_value : Float → Value
    str_value : String → Value
    bool_value : Bool → Value
    date_value : Date → Value
    time_value : Time → Value

  abbrev pub Parser : Type 0
  Parser = String → Result String Value

  unfoldable pub is_blank : String → Bool
  is_blank value = not (truthy value) || str_eq (strip value) "-"

  unfoldable pub parse_int : Parser
  parse_int value = do n ← int value; ok (int_value n)

  unfoldable pub parse_optional_int : Parser
  unfolding is_blank parse_int
  parse_optional_int value = if is_blank value then ok null else parse_int value

  unfoldable pub parse_float : Parser
  parse_float value = do x ← float value; ok (float_value x)

  unfoldable pub parse_optional_float : Parser
  unfolding is_blank parse_float
  parse_optional_float value = if is_blank value then ok null else parse_float value

  unfoldable pub parse_str : Parser
  parse_str value = ok (str_value value)

  unfoldable pub parse_optional_str : Parser
  parse_optional_str value = if truthy value then ok (str_value value) else ok null

  unfoldable pub parse_bool : Parser
  parse_bool value =
      ok (bool_value (str_eq (lower (strip value)) "true" || str_eq (lower (strip value)) "1"))

  unfoldable pub parse_date : Parser
  parse_date value = do d ← date_fromisoformat (first_part value); ok (date_value d)

  unfoldable pub parse_optional_date : Parser
  unfolding parse_date
  parse_optional_date value = if truthy value then parse_date value else ok null

  unfoldable pub parse_time : Parser
  parse_time value = do t ← time_fromisoformat value; ok (time_value t)

  -- `_parse_hosting` of transfermarkt_detail_specs.py
  unfoldable pub parse_hosting : Parser
  parse_hosting value = ok (bool_value (str_eq (lower (strip value)) "home"))
