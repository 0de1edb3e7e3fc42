-- ===== src/Database/Table/Paging.antt =====
-- Reading a table by pages (database/mysql/tables.py): `_limit`, `_order` and `_read`.
pub mod Safety
pub mod Total
use powergslb.Base.{
  ℕ, suc, ◌+◌, Bool, true, false, ◌||◌, ◌&&◌, not, List, [], ◌∷◌, ◌++◌, map, Option, none, some,
  if◌then◌else◌, ltb, ◌==◌, ◌-◌, Text, codes, text_eq, keep, any, is_empty, length, Result, ok, err,
  index_error, key_error,
}
use powergslb.Base.Dict.{get, text_key}
use powergslb.Base.Values.{ℤ, pos, negsuc, Value, int}
use powergslb.Database.Page.{SortClause, PageRequest}
use powergslb.Database.Program.{Program, returns, selects, lift, select, ◌>>=◌}
use powergslb.Database.Statement.{Param, plain}
use powergslb.Database.Table.{Table, mem, quoted, join, comma}
use powergslb.Database.Table.Search.{Python, Condition, search, int_value}
use powergslb.Routing.Create.{Spec}

abbrev pub paging_of : Option ℤ → Option ℤ → Condition
paging_of none offset = ([], [])
paging_of (some l) none = (codes " LIMIT %s", plain (int l) ∷ [])
paging_of (some l) (some o) = (codes " LIMIT %s OFFSET %s", plain (int l) ∷ plain (int o) ∷ [])

-- `_limit`
unfoldable pub limit : PageRequest → Condition
limit page = paging_of page.limit page.offset

-- The sorts by a field of the table.
abbrev pub known_sorts : Table → List SortClause → List SortClause
known_sorts table sorts = keep (λ (sort : SortClause). mem sort.field_name table.fields) sorts

abbrev pub order_term : SortClause → Text
order_term sort =
    if text_eq sort.direction (codes "desc")
    then quoted sort.field_name ++ codes " DESC"
    else quoted sort.field_name

abbrev pub is_limited : Option ℤ → Bool
is_limited none = false
is_limited (some l) = true

abbrev pub by_recid : SortClause → Bool
by_recid sort = text_eq sort.field_name (codes "recid")

-- The terms of the ORDER BY clause: a limited page is sorted by `recid` in the end.
unfoldable pub order_terms : Table → PageRequest → List Text
order_terms table page =
    let sorts = known_sorts table page.sorts in
    map order_term sorts
    ++ (if is_limited page.limit && not (any by_recid sorts) then codes "`recid`" ∷ [] else [])

abbrev pub order_by : List Text → Text
order_by [] = []
order_by (term ∷ terms) = codes " ORDER BY " ++ join comma (term ∷ terms)

-- `_order`
unfoldable pub order : Table → PageRequest → Text
unfolding order_terms
order table page = order_by (order_terms table page)

-- Rows, with the number of all rows that match.
abbrev pub Found : Type 0
Found = List Spec × ℤ

abbrev pub plus : ℤ → ℕ → ℤ
plus (pos m) n = pos (m + n)
plus (negsuc m) n = if ltb m n then pos (n - suc m) else negsuc (m - n)

-- `n < z`
abbrev pub below : ℕ → ℤ → Bool
below n (pos m) = ltb n m
below n (negsuc m) = false

abbrev is_zero : ℤ → Bool
is_zero (pos n) = n == 0
is_zero (negsuc n) = false

-- The page ends within the matching rows' last page: there are rows, or it is the first page.
abbrev pub shows_end : List Spec → ℤ → ℤ → Bool
shows_end rows most skipped = below (length rows) most && (not (is_empty rows) || is_zero skipped)

-- The text of a statement over a derived table.
abbrev pub wrapped : Text → Text → Text → Text → Text
wrapped operation condition ordering paging =
    codes "SELECT * FROM (" ++ operation ++ codes ") AS `t`" ++ condition ++ ordering ++ paging

abbrev pub count_query : Text → Text → Text
count_query operation condition =
    codes "SELECT COUNT(*) AS `total` FROM (" ++ operation ++ codes ") AS `t`" ++ condition

module _ (python : Python) where
  unfoldable pub total_item : Option Value → Result ℤ
  unfolding int_value
  total_item none = err key_error
  total_item (some value) = int_value python value

  -- `int(rows[0]['total'])`
  unfoldable pub total_of : List Spec → Result ℤ
  unfolding total_item get
  total_of [] = err index_error
  total_of (row ∷ rows) = total_item (get (codes "total") row)

  -- The total, from the rows or from a second query.
  unfoldable pub with_total :
      Text → List Param → Condition → Option ℤ → Option ℤ → List Spec → Program Found
  unfolding total_of
  with_total operation params (condition, bound) (some most) (some skipped) rows =
      if shows_end rows most skipped then returns (rows, plus skipped (length rows)) else (do
        counts ← select (count_query operation condition) (params ++ bound)
        total ← lift (total_of counts)
        returns (rows, total))
  with_total operation params condition most skipped rows = returns (rows, pos (length rows))

  -- `_read`
  unfoldable pub read : Table → Text → List Param → Option PageRequest → Program Found
  unfolding search order limit with_total
  read table operation params none = do
    rows ← select operation params
    returns (rows, pos (length rows))
  read table operation params (some page) = do
    condition ← lift (search python table page)
    rows ←
        select (wrapped operation condition.0 (order table page) (limit page).0)
          (params ++ condition.1 ++ (limit page).1)
    with_total operation params condition page.limit page.offset rows
