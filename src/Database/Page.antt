-- ===== src/Database/Page.antt =====
-- The page request of a read (database/page.py). `truncate` is Python's `int` of a float, and `query` is
-- the parsed request.
pub mod Combo
use powergslb.Base.{
  ℕ, ◌≡◌, refl, Bool, true, false, ◌&&◌, ◌||◌, not, List, [], ◌∷◌, map, Option, none, some, any,
  if◌then◌else◌, ◌==◌, Text, codes, text_eq, Result, ok, err, value_error, ◌>>=◌,
}
use powergslb.Base.Dict.{Dict, get, has, text_key}
use powergslb.Base.Values.{
  ℤ, pos, Value, Values, Fields, null, bool, int, float, str, list, dict, nil, cons, end, field,
  entries,
}
use powergslb.Numerals.{int_of}
use powergslb.Routing.Create.{Spec}

-- `value` of `query.get(key)`, where `None` is also what `null` is read as.
abbrev pub or_null : Option Value → Value
or_null none = null
or_null (some value) = value

-- `_text`
abbrev pub text_of : Value → Text
text_of (str text) = text
text_of _ = []

pub record SearchClause : Type 0 where
  pub field_name : Text
  pub type : Text
  pub operator : Text
  pub value : Value

pub record SortClause : Type 0 where
  pub field_name : Text
  pub direction : Text

-- `SearchClause.from_clause`
unfoldable pub search_clause : Spec → SearchClause
unfolding get
search_clause clause = record {
  field_name = text_of (or_null (get (codes "field") clause));
  type = text_of (or_null (get (codes "type") clause));
  operator = text_of (or_null (get (codes "operator") clause));
  value = or_null (get (codes "value") clause);
}

-- `SortClause.from_clause`
unfoldable pub sort_clause : Spec → SortClause
unfolding get
sort_clause clause = record {
  field_name = text_of (or_null (get (codes "field") clause));
  direction = text_of (or_null (get (codes "direction") clause));
}

-- The entries of a list that are objects.
abbrev pub dicts : Values → List Spec
dicts nil = []
dicts (cons (dict fields) values) = entries fields ∷ dicts values
dicts (cons _ values) = dicts values

-- `_clauses`
abbrev pub clauses : Value → List Spec
clauses (list values) = dicts values
clauses _ = []

-- `search in _WILDCARDS`: a text of one character, one of `*+.?^$`.
abbrev pub is_wildcard : Text → Bool
is_wildcard (c ∷ []) = any (λ w. w == c) (codes "*+.?^$")
is_wildcard _ = false

-- `_searches`: the branches on the posted search. What is false in Python and no text has no clauses in
-- the last branch either.
abbrev pub searches_for : Text → Value → List SearchClause
searches_for field_name (str []) = []
searches_for field_name (str (c ∷ search)) =
    if is_wildcard (c ∷ search)
    then []
    else record {
      field_name = field_name;
      type = codes "text";
      operator = codes "contains";
      value = str (c ∷ search);
    }
      ∷ []
searches_for field_name search = map search_clause (clauses search)

unfoldable pub searches : Spec → List SearchClause
unfolding search_clause get
searches query =
    searches_for (text_of (or_null (get (codes "field") query)))
      (or_null (get (codes "search") query))

pub record PageRequest : Type 0 where
  pub searches : List SearchClause
  pub or_logic : Bool
  pub sorts : List SortClause
  pub limit : Option ℤ
  pub offset : Option ℤ

abbrev int_or_error : Option ℤ → Result ℤ
int_or_error none = err value_error
int_or_error (some z) = ok z

-- `query.get('searchLogic') == 'OR'`
abbrev is_or : Value → Bool
is_or (str text) = text_eq text (codes "OR")
is_or _ = false

module _ (truncate : Text → Result ℤ) where
  -- `int(value)`, where a `TypeError` is turned into a `ValueError` by the caller.
  unfoldable pub paging_int : Value → Result ℤ
  unfolding int_of
  paging_int (int z) = ok z
  paging_int (bool true) = ok (pos 1)
  paging_int (bool false) = ok (pos 0)
  paging_int (str text) = int_or_error (int_of text)
  paging_int (float f) = truncate f
  paging_int _ = err value_error

  abbrev paging_with : Option Value → Option Value → Option Value → Result (Option ℤ × Option ℤ)
  paging_with (some limit) (some offset) most = do
    l ← paging_int limit
    o ← paging_int offset
    ok (some l, some o)
  paging_with limit offset (some most) = do l ← paging_int most; ok (some l, none)
  paging_with limit offset none = ok (none, none)

  -- `limit` with `offset`, else `max`.
  unfoldable pub paging : Spec → Result (Option ℤ × Option ℤ)
  unfolding paging_int get
  paging query =
      paging_with (get (codes "limit") query) (get (codes "offset") query) (get (codes "max") query)

  -- `PageRequest.from_query`
  unfoldable pub from_query : Spec → Result PageRequest
  unfolding paging searches sort_clause get
  from_query query = do
    (limit, offset) ← paging query
    ok (record {
      searches = searches query;
      or_logic = is_or (or_null (get (codes "searchLogic") query));
      sorts = map sort_clause (clauses (or_null (get (codes "sort") query)));
      limit = limit;
      offset = offset;
    })
