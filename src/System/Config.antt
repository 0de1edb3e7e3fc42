-- ===== src/System/Config.antt =====
-- The configuration (system/config.py): TOML files with overrides from the environment. `float` of a text
-- is a parameter, `none` where it raises.
pub mod Types
pub mod Items
use powergslb.Base.{
  Bool, true, false, List, [], ◌∷◌, ◌++◌, map, Option, none, some, if◌then◌else◌, any, Text, codes,
  text_eq, is_empty, Result, ok, err, value_error, ◌||◌,
}
use powergslb.Base.Dict.{Dict, get, put, text_key}
use powergslb.Base.Values.{
  ℤ, Value, Values, Fields, null, bool, int, float, str, list, dict, nil, cons, end,
}
use powergslb.Numerals.{int_of, strip}
use powergslb.Routing.Create.{Spec}
use powergslb.View.{Casing}

-- A file's sections, or the merged ones.
abbrev pub Sections : Type 0
Sections = Dict Text Spec

-- `options.update(others)`
abbrev update : Spec → Spec → Spec
unfolding put
update options [] = options
update options ((name, value) ∷ others) = update (put name value options) others

abbrev or_nothing : Option Spec → Spec
or_nothing none = []
or_nothing (some options) = options

-- `self._data.setdefault(section, {}).update(options)` for each section of a file
unfoldable pub merge : Sections → Sections → Sections
unfolding update get put
merge merged [] = merged
merge merged ((section, options) ∷ sections) =
    merge (put section (update (or_nothing (get section merged)) options) merged) sections

-- `Config(files)`, of the parsed files
unfoldable pub load : Sections → List Sections → Sections
unfolding merge
load merged [] = merged
load merged (file ∷ files) = load (merge merged file) files

-- `list(text)`
abbrev characters : Text → Values
characters [] = nil
characters (c ∷ text) = cons (str (c ∷ [])) (characters text)

abbrev truths : List Text
truths = codes "1" ∷ codes "true" ∷ codes "yes" ∷ codes "on" ∷ []

module _ (casing : Casing) (to_float : Text → Option Text) where
  abbrev pub int_result : Option ℤ → Result Value
  int_result none = err value_error
  int_result (some z) = ok (int z)

  abbrev pub float_result : Option Text → Result Value
  float_result none = err value_error
  float_result (some f) = ok (float f)

  -- The text of an override, for the type of the current value.
  unfoldable pub coerce_text : Text → Value → Result Value
  unfolding int_of strip
  coerce_text text (str current) = ok (str text)
  coerce_text text (bool current) = ok (bool (any (text_eq (casing.lower (strip text))) truths))
  coerce_text text null = ok (str text)
  coerce_text text (int current) = int_result (int_of text)
  coerce_text text (float current) = float_result (to_float text)
  coerce_text text (list current) = ok (list (characters text))
  coerce_text text (dict current) = if is_empty text then ok (dict end) else err value_error

  -- `coerce_env`
  unfoldable pub coerce_env : Value → Value → Result Value
  unfolding coerce_text
  coerce_env (str text) current = coerce_text text current
  coerce_env value current = ok value

  -- `f'POWERGSLB_{section}_{option}'.upper()`
  abbrev pub env_key : Text → Text → Text
  env_key section option = casing.upper (codes "POWERGSLB_" ++ section ++ codes "_" ++ option)

  abbrev or_default : Value → Option Value → Value
  or_default default none = default
  or_default default (some value) = value

  -- The value of the files, or the default.
  unfoldable pub configured : Sections → Text → Text → Value → Value
  unfolding get
  configured merged section option default =
      or_default default (get option (or_nothing (get section merged)))

  unfoldable pub overridden : Value → Option Text → Result Value
  unfolding coerce_env
  overridden value none = ok value
  overridden value (some text) = coerce_env (str text) value

  -- `Config.get`
  unfoldable pub get_option : Sections → Dict Text Text → Text → Text → Value → Result Value
  unfolding configured overridden get
  get_option merged environ section option default =
      overridden (configured merged section option default) (get (env_key section option) environ)
