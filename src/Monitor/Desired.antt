-- ===== src/Monitor/Desired.antt =====
-- The checks that the database asks for (monitor/monitor.py): `_parse`, `_substitute`, `build_check` and
-- `_desired_checks`. `json.loads` is a parameter.
pub mod Sound
use powergslb.Base.{
  ℕ, zero, suc, ◌-◌, Bool, true, false, List, [], ◌∷◌, ◌++◌, Option, none, some, if◌then◌else◌,
  ◌&&◌, ◌==◌, length, drop, Text, codes, Result, ok, err, ◌>>=◌,
}
use powergslb.Base.Dict.{Dict, put, nat_eq}
use powergslb.Base.Values.{
  Value, Values, Fields, null, bool, int, float, str, list, dict, nil, cons, end, field, entries,
}
use powergslb.Monitor.Check.{Check, skip}
use powergslb.Monitor.Create.{Libraries, create}
use powergslb.Routing.Create.{Spec, object_of}

-- `text.startswith(token)`
abbrev pub starts_with : Text → Text → Bool
starts_with [] text = true
starts_with (c ∷ token) [] = false
starts_with (c ∷ token) (d ∷ text) = c == d && starts_with token text

-- `text.replace(token, replacement)` for a token that is not empty, from left to right; the first argument counts
-- the characters of a replaced occurrence that are still to be passed over.
unfoldable pub replace_onward : ℕ → Text → Text → Text → Text
replace_onward passed token replacement [] = []
replace_onward zero token replacement (c ∷ text) =
    let found = replacement ++ replace_onward (length token - 1) token replacement text in
    let other = c ∷ replace_onward zero token replacement text in
    if starts_with token (c ∷ text) then found else other
replace_onward (suc passed) token replacement (c ∷ text) =
    replace_onward passed token replacement text

unfoldable pub replace : Text → Text → Text → Text
unfolding replace_onward
replace token replacement text = replace_onward zero token replacement text

module _ (token replacement : Text) where
  -- `_substitute`; the keys of an object stay.
  unfoldable mutual
    unfolding replace

    pub substitute : Value → Value
    substitute (str text) = str (replace token replacement text)
    substitute (list values) = list (substitute_values values)
    substitute (dict fields) = dict (substitute_fields fields)
    substitute null = null
    substitute (bool b) = bool b
    substitute (int z) = int z
    substitute (float f) = float f

    pub substitute_values : Values → Values
    substitute_values nil = nil
    substitute_values (cons value values) = cons (substitute value) (substitute_values values)

    pub substitute_fields : Fields → Fields
    substitute_fields end = end
    substitute_fields (field key value fields) =
        field key (substitute value) (substitute_fields fields)

-- A row of `gslb_checks`.
pub record RawCheck : Type 0 where
  pub id : ℕ
  pub content : Text
  pub monitor_json : Text

module _ (libraries : Libraries) (loads : Text → Result Value) where
  abbrev substituted : Text → Value → Result Spec
  substituted content (dict fields) =
      object_of (substitute (codes "${content}") content (dict fields))
  substituted content value = object_of value

  -- `_parse`
  unfoldable pub parse : RawCheck → Result Spec
  unfolding substitute
  parse raw = do template ← loads raw.monitor_json; substituted raw.content template

  -- `build_check`
  unfoldable pub build_check : RawCheck → Result Check
  unfolding parse create
  build_check raw = do check_spec ← parse raw; create libraries check_spec

  abbrev pub add_desired : ℕ → Result Check → Dict ℕ Check → Dict ℕ Check
  add_desired id (err e) desired = desired
  add_desired id (ok check) desired = if skip check then desired else put id check desired

  -- The loop of `_desired_checks`.
  unfoldable pub desired_onto : Dict ℕ Check → List RawCheck → Dict ℕ Check
  unfolding build_check
  desired_onto desired [] = desired
  desired_onto desired (raw ∷ raw_checks) =
      desired_onto (add_desired raw.id (build_check raw) desired) raw_checks

  abbrev all_desired : Option (List RawCheck) → Option (Dict ℕ Check)
  all_desired none = none
  all_desired (some raw_checks) = some (desired_onto [] raw_checks)

  -- `_desired_checks`, from the rows of the database, if it is available.
  unfoldable pub desired_checks : Option (List RawCheck) → Option (Dict ℕ Check)
  unfolding desired_onto
  desired_checks raw_checks = all_desired raw_checks
