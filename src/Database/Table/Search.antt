-- ===== src/Database/Table/Search.antt =====
-- The WHERE clause of a page (database/mysql/tables.py): the conditions of its searches, with the values
-- they bind. What `str`, `int` of a float and `date` do with a posted value are parameters.
pub mod Safety
pub mod Like
use powergslb.Base.{
  ℕ, suc, Bool, true, false, ◌||◌, ◌&&◌, not, List, [], ◌∷◌, ◌++◌, map, Option, none, some,
  if◌then◌else◌, ◌==◌, Text, codes, text_eq, Result, ok, err, Error, value_error, type_error,
  index_error, overflow_error, ◌>>=◌, length, is_empty,
}
use powergslb.Base.Values.{
  ℤ, pos, Value, Values, null, bool, int, float, str, list, dict, nil, cons,
}
use powergslb.Database.Page.{SearchClause, PageRequest}
use powergslb.Database.Statement.{Param, plain}
use powergslb.Database.Table.{Table, mem, quoted, placeholders, join}
use powergslb.Numerals.{int_of}

-- `str(value)`, `int` of a float, and `date.fromisoformat` with the day's number, as `date.toordinal`
-- counts it. A date is bound as its ISO text.
pub record Python : Type 0 where
  pub show : Value → Text
  pub truncate : Text → Result ℤ
  pub fromisoformat : Text → Result ℕ
  pub isoformat : ℕ → Text

-- A condition, with its parameters.
abbrev pub Condition : Type 0
Condition = Text × List Param

-- `_no_match`
abbrev pub no_match : Condition
no_match = (codes "0 = 1", [])

-- `_operators`
abbrev pub operators : Text → List Text
operators type =
    if text_eq type (codes "text")
    then codes "is" ∷ codes "begins" ∷ codes "contains" ∷ codes "ends" ∷ []
    else if text_eq type (codes "int")
    then codes "is" ∷ codes "in" ∷ codes "not in" ∷ codes "between" ∷ []
    else if text_eq type (codes "date")
    then codes "is" ∷ codes "between" ∷ []
    else []

-- `_escape_like`: the backslashes first, then the wildcards, each of which takes a backslash before it.
abbrev pub escape_char : ℕ → Text → Text
escape_char c [] = []
escape_char c (x ∷ text) =
    let rest = escape_char c text in if x == c then b'\\' ∷ x ∷ rest else x ∷ rest

unfoldable pub escape_like : Text → Text
escape_like value = escape_char b'_' (escape_char b'%' (escape_char b'\\' value))

-- `_like_patterns[operator].format(value)`
abbrev pub like_pattern : Text → Text → Text
like_pattern operator value =
    if text_eq operator (codes "begins")
    then value ++ codes "%"
    else if text_eq operator (codes "contains")
    then codes "%" ++ value ++ codes "%"
    else codes "%" ++ value

-- The items of a list.
abbrev pub items : Values → List Value
items nil = []
items (cons value values) = value ∷ items values

-- `value if isinstance(value, list) else [value]`
abbrev pub items_of : Value → List Value
items_of (list values) = items values
items_of value = value ∷ []

-- `except`: an exception of a class that is caught matches nothing.
abbrev pub caught : (Error → Bool) → Result Condition → Result Condition
caught catches (ok condition) = ok condition
caught catches (err e) = if catches e then ok no_match else err e

abbrev pub int_errors : Error → Bool
int_errors index_error = true
int_errors type_error = true
int_errors value_error = true
int_errors _ = false

abbrev pub date_errors : Error → Bool
date_errors overflow_error = true
date_errors e = int_errors e

abbrev int_or_error : Option ℤ → Result ℤ
int_or_error none = err value_error
int_or_error (some z) = ok z

-- A usable clause before the others.
abbrev pub onto : Option Condition → List Condition → List Condition
onto none conditions = conditions
onto (some condition) conditions = condition ∷ conditions

abbrev pub all_params : List Condition → List Param
all_params [] = []
all_params ((condition, params) ∷ conditions) = params ++ all_params conditions

abbrev pub where_clause : Bool → Bool → List Condition → Condition
where_clause searched or_logic [] =
    if searched && or_logic then (codes " WHERE 0 = 1", []) else ([], [])
where_clause searched or_logic (condition ∷ conditions) = (
  codes " WHERE "
      ++ join (if or_logic then codes " OR " else codes " AND ")
          (map (λ (c : Condition). c.0) (condition ∷ conditions)),
  all_params (condition ∷ conditions),
)

module _ (python : Python) where
  -- `_text_clause`
  unfoldable pub text_clause : Text → Text → Value → Condition
  unfolding escape_like
  text_clause column operator value =
      if text_eq operator (codes "is")
      then (column ++ codes " = %s", plain (str (python.show value)) ∷ [])
      else (
        column ++ codes " LIKE %s",
        plain (str (like_pattern operator (escape_like (python.show value)))) ∷ [],
      )

  -- `int(value)`
  unfoldable pub int_value : Value → Result ℤ
  unfolding int_of
  int_value (int z) = ok z
  int_value (bool true) = ok (pos 1)
  int_value (bool false) = ok (pos 0)
  int_value (str text) = int_or_error (int_of text)
  int_value (float f) = python.truncate f
  int_value _ = err type_error

  -- `tuple(int(item) for item in values)`
  abbrev pub int_values : List Value → Result (List Param)
  int_values [] = ok []
  int_values (value ∷ values) = do
    z ← int_value value
    zs ← int_values values
    ok (plain (int z) ∷ zs)

  -- `in` and `not in`
  abbrev pub in_condition : Text → Bool → List Value → Result Condition
  in_condition column negate [] = ok no_match
  in_condition column negate (value ∷ values) = do
    params ← int_values (value ∷ values)
    ok (
      column
          ++ codes " "
          ++ (if negate then codes "NOT " else [])
          ++ codes "IN ("
          ++ placeholders (suc (length values))
          ++ codes ")",
      params,
    )

  -- `between`
  abbrev pub between_condition : Text → Value → Result Condition
  between_condition column (list (cons first (cons last values))) = do
    m ← int_value first
    n ← int_value last
    ok (column ++ codes " BETWEEN %s AND %s", plain (int m) ∷ plain (int n) ∷ [])
  between_condition column (list (cons first nil)) = do m ← int_value first; err index_error
  between_condition column (list nil) = err index_error
  between_condition column value = ok no_match

  abbrev pub int_condition : Text → Text → Value → Result Condition
  int_condition column operator value =
      if text_eq operator (codes "is")
      then (do z ← int_value value; ok (column ++ codes " = %s", plain (int z) ∷ []))
      else if text_eq operator (codes "in") || text_eq operator (codes "not in")
      then in_condition column (text_eq operator (codes "not in")) (items_of value)
      else between_condition column value

  -- `_int_clause`
  unfoldable pub int_clause : Text → Text → Value → Result Condition
  unfolding int_of
  int_clause column operator value = caught int_errors (int_condition column operator value)

  -- `end + timedelta(days=1)`: the last day is the 3,652,059th.
  abbrev pub day_after : ℕ → Result ℕ
  day_after day = if day == 3652059 then err overflow_error else ok (suc day)

  -- The half-open range of days.
  abbrev pub day_range : Text → ℕ → ℕ → Result Condition
  day_range column start last = do
    after ← day_after last
    ok (
      column ++ codes " >= %s AND " ++ column ++ codes " < %s",
      plain (str (python.isoformat start)) ∷ plain (str (python.isoformat after)) ∷ [],
    )

  abbrev pub date_of : Value → Result ℕ
  date_of value = python.fromisoformat (python.show value)

  abbrev pub date_between : Text → Value → Result Condition
  date_between column (list (cons first (cons last values))) = do
    m ← date_of first
    n ← date_of last
    day_range column m n
  date_between column (list (cons first nil)) = do m ← date_of first; err index_error
  date_between column (list nil) = err index_error
  date_between column value = ok no_match

  -- `_date_clause`
  unfoldable pub date_clause : Text → Text → Value → Result Condition
  date_clause column operator value = caught date_errors (
      if text_eq operator (codes "is")
      then (do day ← date_of value; day_range column day day)
      else date_between column value)

  -- The clause of the search's type.
  unfoldable pub typed_clause : Text → Text → Text → Value → Result Condition
  unfolding text_clause int_clause date_clause
  typed_clause type column operator value =
      if text_eq type (codes "text")
      then ok (text_clause column operator value)
      else if text_eq type (codes "int")
      then int_clause column operator value
      else date_clause column operator value

  -- The clause of a known field.
  unfoldable pub field_clause : SearchClause → Result (Option Condition)
  unfolding typed_clause
  field_clause search = do
    condition ← typed_clause search.type (quoted search.field_name) search.operator search.value
    ok (some condition)

  -- `_search_clause`
  unfoldable pub search_clause : Table → SearchClause → Result (Option Condition)
  unfolding field_clause
  search_clause table search =
      if not (mem search.operator (operators search.type))
      then ok none
      else if not (mem search.field_name table.fields)
      then ok (some no_match)
      else field_clause search

  -- The clauses that are not `None`.
  unfoldable pub search_clauses : Table → List SearchClause → Result (List Condition)
  unfolding search_clause
  search_clauses table [] = ok []
  search_clauses table (search ∷ searches) = do
    condition ← search_clause table search
    conditions ← search_clauses table searches
    ok (onto condition conditions)

  -- `_search`
  unfoldable pub search : Table → PageRequest → Result Condition
  unfolding search_clauses
  search table page = do
    conditions ← search_clauses table page.searches
    ok (where_clause (not (is_empty page.searches)) page.or_logic conditions)
