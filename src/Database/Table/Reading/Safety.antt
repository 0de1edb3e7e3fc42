-- ===== src/Database/Table/Reading/Safety.antt =====
-- The placeholders of the statements that read a table, of each class (database/mysql/tables.py).
use powergslb.Base.{
  ℕ, ◌≡◌, refl, sym, Bool, true, false, not, ◌||◌, List, [], ◌∷◌, ◌++◌, Option, none, some, Text,
  codes, Bool-cases, inl, inr, length, length-append, length-map, arith, if◌then◌else◌, ok,
}
use powergslb.Base.Dict.{Dict}
use powergslb.Base.Values.{ℤ, Value, int, pos}
use powergslb.Database.Page.{PageRequest}
use powergslb.Database.Statement.{plain}
use powergslb.Database.Table.{Table, Kind, base, audit, records, status, users}
use powergslb.Database.Table.Keys.{item, recids, recid_of, keyed}
use powergslb.Database.Table.Marks.{
  HasMarks, IsPlain, IsBound, ◌⊕◌, as_many, counts, HasMarks-placeholders,
}
use powergslb.Database.Table.Paging.{read}
use powergslb.Database.Table.Paging.Safety.{
  Reads, NoWrite, Bounded-bind, Bounded-lifted, read-Reads,
}
use powergslb.Database.Table.Reading.{
  is_given, down_condition, down_params, records_page, status_page, page_head, page_tail,
  query_head, query_middle, query_tail, one_or_all, local_select, status_query, base_join_page,
  with_status, join_page, key_params, base_get, full_read, paged_get, records_get, get_of, is_local,
}
use powergslb.Database.Table.Search.{Python}
use powergslb.Database.Table.Statements.{IsPlainTable, select_of-IsPlain, HasMarks-select_one}
use powergslb.Routing.Create.{Spec}

down_condition-marks :
    (column : Text) (ids : List ℕ)
    → IsPlain column
    → HasMarks (down_condition column ids) (length (down_params ids))
down_condition-marks column [] p = counts [] refl
down_condition-marks column (id ∷ ids) p =
    as_many
      (counts (codes " OR ") refl
        ⊕ p
        ⊕ counts (codes " IN (") refl
        ⊕ HasMarks-placeholders (length (id ∷ ids))
        ⊕ counts (codes ")") refl)
      (omega (arith, length-map (λ id. plain (int (pos id))) (id ∷ ids)))

status_page-marks : (ids : List ℕ) → IsBound (status_page ids) (down_params ids)
status_page-marks ids =
    as_many
      (counts page_head refl
        ⊕ down_condition-marks (codes "`records`.`id`") ids (counts _ refl)
        ⊕ counts page_tail refl)
      (omega arith)

local_select-IsBound :
    (kind : Kind) (ids : List ℕ) → IsBound (local_select kind ids).0 (local_select kind ids).1
unfolding local_select
local_select-IsBound status ids = status_page-marks ids
local_select-IsBound base ids = counts records_page refl
local_select-IsBound audit ids = counts records_page refl
local_select-IsBound records ids = counts records_page refl
local_select-IsBound users ids = counts records_page refl

module _ (table : Table) (t : IsPlainTable table) where
  one_or_all-marks : (one : Bool) → HasMarks (one_or_all table one) (if one then 1 else 0)
  unfolding one_or_all
  one_or_all-marks true = HasMarks-select_one table t
  one_or_all-marks false = select_of-IsPlain table t table.kind

  length-key_params : (recid : ℤ) → length (key_params recid) ≡ (if is_given recid then 1 else 0)
  length-key_params recid = elim (Bool-cases (is_given recid)) [
    | inl e ↦ rw e refl
    | inr e ↦ rw e refl
  ]

  base_join_page-bound : (id_rows : List Spec) → Reads (base_join_page table id_rows)
  unfolding base_join_page
  base_join_page-bound [] = tt
  base_join_page-bound (row ∷ id_rows) = Bounded-lifted NoWrite (recids (row ∷ id_rows)) _ (λ ids. (
    as_many
        (select_of-IsPlain table t table.kind
          ⊕ counts (codes " WHERE `records`.`id` IN (") refl
          ⊕ HasMarks-placeholders (length ids)
          ⊕ counts (codes ")") refl)
        (omega (arith, length-map (λ id. plain (int id)) ids)),
    λ rows. Bounded-lifted NoWrite (keyed ok [] rows) _ (λ by_id. tt),
  ))

  with_status-bound :
      (statuses : Dict ℤ Value) (rows : List Spec) → Reads (with_status statuses rows)
  unfolding with_status
  with_status-bound statuses [] = tt
  with_status-bound statuses (row ∷ rows) = Bounded-lifted NoWrite (recid_of row) _ (λ key.
      Bounded-lifted NoWrite _ _ (λ value.
        Bounded-bind NoWrite (with_status statuses rows) _ (with_status-bound statuses rows)
          (λ others. tt)))

  join_page-bound : (kind : Kind) (id_rows : List Spec) → Reads (join_page kind table id_rows)
  unfolding join_page
  join_page-bound status id_rows =
      Bounded-bind NoWrite (base_join_page table id_rows) _ (base_join_page-bound id_rows) (λ rows.
        Bounded-lifted NoWrite (keyed (item (codes "status")) [] id_rows) _
          (λ statuses. with_status-bound statuses rows))
  join_page-bound base id_rows = base_join_page-bound id_rows
  join_page-bound audit id_rows = base_join_page-bound id_rows
  join_page-bound records id_rows = base_join_page-bound id_rows
  join_page-bound users id_rows = base_join_page-bound id_rows

  module _ (python : Python) where
    base_get-bound :
        (recid : ℤ) (page : Option PageRequest) → Reads (base_get python table recid page)
    unfolding base_get
    base_get-bound recid page =
        read-Reads python table t.plain_fields _ (key_params recid)
          (as_many (one_or_all-marks (is_given recid)) (sym (length-key_params recid))) page

    status_query-IsBound :
        (recid : ℤ) (ids : List ℕ)
        → IsBound (status_query table (is_given recid) ids) (down_params ids ++ key_params recid)
    unfolding status_query
    status_query-IsBound recid ids =
        as_many
          (counts query_head refl
            ⊕ down_condition-marks (codes "`r`.`recid`") ids (counts _ refl)
            ⊕ counts query_middle refl
            ⊕ one_or_all-marks (is_given recid)
            ⊕ counts query_tail refl)
          (omega
            (arith, length-append (down_params ids) (key_params recid), length-key_params recid))

    full_read-bound :
        (kind : Kind) (recid : ℤ) (page : Option PageRequest) (ids : List ℕ)
        → Reads (full_read python kind table recid page ids)
    unfolding full_read
    full_read-bound status recid page ids =
        read-Reads python table t.plain_fields _ _ (status_query-IsBound recid ids) page
    full_read-bound base recid page ids = base_get-bound recid page
    full_read-bound audit recid page ids = base_get-bound recid page
    full_read-bound records recid page ids = base_get-bound recid page
    full_read-bound users recid page ids = base_get-bound recid page

    paged_get-bound : (ids : List ℕ) (page : PageRequest) → Reads (paged_get python table ids page)
    unfolding paged_get
    paged_get-bound ids page =
        Bounded-bind NoWrite
          (read python table (local_select table.kind ids).0 (local_select table.kind ids).1
            (some page))
          _
          (read-Reads python table t.plain_fields _ _ (local_select-IsBound table.kind ids)
            (some page))
          (λ found.
            Bounded-bind NoWrite (join_page table.kind table found.0) _
              (join_page-bound table.kind found.0) (λ rows. tt))

    records_get-bound :
        (recid : ℤ) (page : Option PageRequest) (ids : List ℕ)
        → Reads (records_get python table recid page ids)
    unfolding records_get
    records_get-bound recid none ids = full_read-bound table.kind recid none ids
    records_get-bound recid (some page) ids =
        elim (Bool-cases (is_given recid || not (is_local table page))) [
          | inl e ↦ rw e (full_read-bound table.kind recid (some page) ids)
          | inr e ↦ rw e (paged_get-bound ids page)
        ]

    pub get_of-bound :
        (kind : Kind) (recid : ℤ) (page : Option PageRequest) (ids : List ℕ)
        → Reads (get_of python kind table recid page ids)
    unfolding get_of
    get_of-bound base recid page ids = base_get-bound recid page
    get_of-bound audit recid page ids = base_get-bound recid page
    get_of-bound records recid page ids = records_get-bound recid page ids
    get_of-bound status recid page ids = records_get-bound recid page ids
    get_of-bound users recid page ids = base_get-bound recid page
