-- ===== src/System/Config/Types.antt =====
-- An override has the type of the value that it overrides (system/config.py).
use powergslb.Base.{
  ◌≡◌, refl, ◌≢◌, Option, none, some, Option-cases, inl, inr, Text, Returns, Bool-cases, is_empty,
}
use powergslb.Base.Dict.{Dict, get, text_key}
use powergslb.Base.Values.{ℤ, Value, null, bool, int, float, str, list, dict}
use powergslb.Numerals.{int_of}
use powergslb.System.Config.{
  Sections, int_result, float_result, coerce_text, coerce_env, env_key, configured, overridden,
  get_option,
}
use powergslb.View.{Casing}

-- Python's type of a value.
pub data ValueType : Type 0 where
  none_type bool_type int_type float_type str_type list_type dict_type : ValueType

abbrev pub type_of_value : Value → ValueType
type_of_value null = none_type
type_of_value (bool b) = bool_type
type_of_value (int z) = int_type
type_of_value (float f) = float_type
type_of_value (str text) = str_type
type_of_value (list values) = list_type
type_of_value (dict fields) = dict_type

-- Of the same type.
abbrev pub SameType : Value → Value → Type 0
SameType current value = type_of_value value ≡ type_of_value current

module _ (casing : Casing) (to_float : Text → Option Text) where
  int_result-SameType :
      (z : ℤ) (o : Option ℤ) → Returns (SameType (int z)) (int_result casing to_float o)
  int_result-SameType z none = tt
  int_result-SameType z (some y) = refl

  float_result-SameType :
      (f : Text) (o : Option Text) → Returns (SameType (float f)) (float_result casing to_float o)
  float_result-SameType f none = tt
  float_result-SameType f (some g) = refl

  coerce_text-SameType :
      (text : Text) (current : Value)
      → current ≢ null
      → Returns (SameType current) (coerce_text casing to_float text current)
  unfolding coerce_text
  coerce_text-SameType text null h = absurd (h refl)
  coerce_text-SameType text (bool b) h = refl
  coerce_text-SameType text (int z) h = int_result-SameType z (int_of text)
  coerce_text-SameType text (float f) h = float_result-SameType f (to_float text)
  coerce_text-SameType text (str t) h = refl
  coerce_text-SameType text (list values) h = refl
  coerce_text-SameType text (dict fields) h = elim (Bool-cases (is_empty text)) [
    | inl e ↦ rw e refl
    | inr e ↦ rw e tt
  ]

  -- A configured value keeps its type, whatever the environment holds: an override is coerced to the type of
  -- the value of the files, or of the default where there is none, or it is an error. This value is not `None`,
  -- which has no type to coerce to.
  pub get_option-SameType :
      (sections : Sections) (environ : Dict Text Text) (section option : Text) (default : Value)
      → configured casing to_float sections section option default ≢ null
      → Returns
          (SameType (configured casing to_float sections section option default))
          (get_option casing to_float sections environ section option default)
  unfolding get_option overridden coerce_env
  get_option-SameType sections environ section option default h =
      elim (Option-cases (get (env_key casing to_float section option) environ)) [
        | inl e ↦ rw e refl
        | inr (text, e) ↦ rw e (
            coerce_text-SameType text (configured casing to_float sections section option default)
              h)
      ]
