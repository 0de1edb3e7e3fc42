-- ===== src/Database/Table/Reading.antt =====
-- Reading a table, whole, by key or by pages (database/mysql/tables.py): `get` of each class. The texts
-- between triple quotes keep their lines.
pub mod Safety
pub mod Join
pub mod Fast
use powergslb.Base.{
  ℕ, zero, Bool, true, false, ◌&&◌, ◌||◌, not, List, [], ◌∷◌, ◌++◌, map, Option, none, some,
  if◌then◌else◌, Text, codes, all, is_empty, length, collect, Result, ok, err, key_error,
}
use powergslb.Base.Dict.{Dict, get, put, text_key}
use powergslb.Base.Values.{ℤ, pos, negsuc, Value, int}
use powergslb.Database.Page.{SearchClause, SortClause, PageRequest}
use powergslb.Database.Program.{Program, returns, lift, select, ◌>>=◌}
use powergslb.Database.Statement.{Param, plain}
use powergslb.Database.Table.{
  Table, Kind, base, audit, records, status, users, mem, lines, placeholders, select_of, select_one,
}
use powergslb.Database.Table.Keys.{int_key, item, recids, recid_of, keyed}
use powergslb.Database.Table.Paging.{Found, read}
use powergslb.Database.Table.Search.{Python}
use powergslb.Routing.Create.{Spec}

-- `bool(recid)`
abbrev pub is_given : ℤ → Bool
is_given (pos zero) = false
is_given _ = true

-- `_local_fields`
abbrev pub local_fields : Kind → List Text
local_fields status =
    codes "recid" ∷ codes "disabled" ∷ codes "weight" ∷ codes "content" ∷ codes "status" ∷ []
local_fields kind = codes "recid" ∷ codes "disabled" ∷ codes "weight" ∷ codes "content" ∷ []

-- `_is_local`
unfoldable pub is_local : Table → PageRequest → Bool
is_local table page =
    all (λ (search : SearchClause). mem search.field_name (local_fields table.kind)) page.searches
    && all (λ (sort : SortClause). mem sort.field_name (local_fields table.kind)) page.sorts

-- `f' OR {column} IN ({placeholders})'` of the content ids that are down.
abbrev pub down_condition : Text → List ℕ → Text
down_condition column [] = []
down_condition column (id ∷ ids) =
    codes " OR " ++ column ++ codes " IN (" ++ placeholders (length (id ∷ ids)) ++ codes ")"

abbrev pub down_params : List ℕ → List Param
down_params ids = map (λ id. plain (int (pos id))) ids

-- `Records._local_select`
abbrev pub records_page : Text
records_page = lines (
    codes ""
    ∷ codes "            SELECT `records`.`id` AS `recid`,"
    ∷ codes "              `records`.`disabled`,"
    ∷ codes "              `records`.`weight`,"
    ∷ codes "              `records`.`content`"
    ∷ codes "            FROM `records`"
    ∷ codes "        "
    ∷ [])

-- The texts about the condition of `Status._local_select`.
abbrev pub page_head : Text
page_head = lines (
    codes ""
    ∷ codes "            SELECT `records`.`id` AS `recid`,"
    ∷ codes "              `records`.`disabled`,"
    ∷ codes "              `records`.`weight`,"
    ∷ codes "              `records`.`content`,"
    ∷ codes "              CASE WHEN `records`.`disabled`"
    ∷ [])

abbrev pub page_tail : Text
page_tail = lines (
    codes " THEN 'Off' ELSE 'On' END AS `status`"
    ∷ codes "            FROM `records`"
    ∷ codes "        "
    ∷ [])

-- `Status._local_select`
abbrev pub status_page : List ℕ → Text
status_page down_ids = page_head ++ down_condition (codes "`records`.`id`") down_ids ++ page_tail

-- `_local_select`
unfoldable pub local_select : Kind → List ℕ → Text × List Param
local_select status down_ids = (status_page down_ids, down_params down_ids)
local_select kind down_ids = (records_page, [])

-- The texts about the condition and the join of `Status._full_read`.
abbrev pub query_head : Text
query_head = lines (
    codes ""
    ∷ codes "            SELECT `r`.*,"
    ∷ codes "              CASE WHEN `r`.`disabled`"
    ∷ [])

abbrev pub query_middle : Text
query_middle =
    lines (codes " THEN 'Off' ELSE 'On' END AS `status`" ∷ codes "            FROM (" ∷ [])

abbrev pub query_tail : Text
query_tail = lines (codes ") AS `r`" ∷ codes "        " ∷ [])

-- `self._select_one if recid else self._select`
unfoldable pub one_or_all : Table → Bool → Text
unfolding select_of select_one
one_or_all table one = if one then select_one table else select_of table.kind table

-- The statement of `Status._full_read`.
unfoldable pub status_query : Table → Bool → List ℕ → Text
unfolding one_or_all
status_query table one down_ids =
    query_head
    ++ down_condition (codes "`r`.`recid`") down_ids
    ++ query_middle
    ++ one_or_all table one
    ++ query_tail

-- `[by_id[recid] for recid in ids if recid in by_id]`
unfoldable pub in_order : {V : Type 0} → List ℤ → Dict ℤ V → List V
unfolding get
in_order ids by_id = collect (λ id. get id by_id) ids

-- `Records._join_page`
unfoldable pub base_join_page : Table → List Spec → Program (List Spec)
unfolding select_of recids keyed in_order
base_join_page table [] = returns []
base_join_page table (row ∷ id_rows) = do
  ids ← lift (recids (row ∷ id_rows))
  rows ←
      select
        (select_of table.kind table
          ++ codes " WHERE `records`.`id` IN ("
          ++ placeholders (length ids)
          ++ codes ")")
        (map (λ id. plain (int id)) ids)
  by_id ← lift (keyed ok [] rows)
  returns (in_order ids by_id)

abbrev status_or_error : Option Value → Result Value
status_or_error none = err key_error
status_or_error (some value) = ok value

-- `row['status'] = status[row['recid']]` for each row.
unfoldable pub with_status : Dict ℤ Value → List Spec → Program (List Spec)
unfolding recid_of get put
with_status statuses [] = returns []
with_status statuses (row ∷ rows) = do
  key ← lift (recid_of row)
  value ← lift (status_or_error (get key statuses))
  others ← with_status statuses rows
  returns (put (codes "status") value row ∷ others)

-- `_join_page`
unfoldable pub join_page : Kind → Table → List Spec → Program (List Spec)
unfolding base_join_page item with_status keyed
join_page status table id_rows = do
  rows ← base_join_page table id_rows
  statuses ← lift (keyed (item (codes "status")) [] id_rows)
  with_status statuses rows
join_page kind table id_rows = base_join_page table id_rows

abbrev pub key_params : ℤ → List Param
key_params recid = if is_given recid then plain (int recid) ∷ [] else []

module _ (python : Python) where
  -- `Table.get`
  unfoldable pub base_get : Table → ℤ → Option PageRequest → Program Found
  unfolding read one_or_all
  base_get table recid page =
      read python table (one_or_all table (is_given recid)) (key_params recid) page

  -- `_full_read`
  unfoldable pub full_read : Kind → Table → ℤ → Option PageRequest → List ℕ → Program Found
  unfolding base_get read status_query
  full_read status table recid page down_ids =
      read python table (status_query table (is_given recid) down_ids)
        (down_params down_ids ++ key_params recid) page
  full_read kind table recid page down_ids = base_get table recid page

  -- The page of a page of records, then the join.
  unfoldable pub paged_get : Table → List ℕ → PageRequest → Program Found
  unfolding read join_page local_select
  paged_get table down_ids page = do
    (id_rows, total) ←
        read python table (local_select table.kind down_ids).0 (local_select table.kind down_ids).1
          (some page)
    rows ← join_page table.kind table id_rows
    returns (rows, total)

  -- `Records.get`
  unfoldable pub records_get : Table → ℤ → Option PageRequest → List ℕ → Program Found
  unfolding full_read paged_get is_local
  records_get table recid none down_ids = full_read table.kind table recid none down_ids
  records_get table recid (some page) down_ids =
      if is_given recid || not (is_local table page)
      then full_read table.kind table recid (some page) down_ids
      else paged_get table down_ids page

  -- `get`, of each class
  unfoldable pub get_of : Kind → Table → ℤ → Option PageRequest → List ℕ → Program Found
  unfolding records_get base_get
  get_of records table recid page down_ids = records_get table recid page down_ids
  get_of status table recid page down_ids = records_get table recid page down_ids
  get_of kind table recid page down_ids = base_get table recid page

  abbrev pub get_rows : Table → ℤ → Option PageRequest → List ℕ → Program Found
  get_rows table recid page down_ids = get_of table.kind table recid page down_ids
