-- ===== src/Database/Table/Writing.antt =====
-- Writing a table (database/mysql/tables.py): `save`, `written_recid` and `remove` of each class.
pub mod Safety
use powergslb.Database.Table.Accounts.{users_save}
use powergslb.Base.{
  ℕ, zero, suc, Bool, true, false, ◌&&◌, ◌||◌, not, List, [], ◌∷◌, ◌++◌, map, Option, none, some,
  ◌+◌, if◌then◌else◌, Text, codes, text_eq, length, keep, Result, ok, err, Error, value_error,
  runtime_error, type_error, ◌==◌,
}
use powergslb.Base.Dict.{Dict, get, has, put, text_key}
use powergslb.Base.Values.{ℤ, pos, negsuc, Value, int, str, null}
use powergslb.Database.Page.{PageRequest, or_null}
use powergslb.Database.Program.{
  Program, returns, raises, lift, select, modify, last_insert_id, ◌>>=◌,
}
use powergslb.Database.Statement.{Param, plain, masked}
use powergslb.Database.Table.{
  Table, Kind, base, audit, records, status, users, mem, lines, quoted, insert_of, update_of,
  delete_of,
}
use powergslb.Database.Table.Keys.{item}
use powergslb.Database.Table.Reading.{is_given}
use powergslb.Database.Table.Search.{Python, int_value}
use powergslb.Password.{Crypt, hash_password, verify_password, mask}
use powergslb.Routing.Create.{Spec}
use powergslb.View.{Casing}

-- `fields.setdefault(column, value)` for each default
abbrev pub with_defaults : Dict Text Value → Spec → Spec
unfolding put get
with_defaults [] fields = fields
with_defaults ((name, value) ∷ defaults) fields =
    with_defaults defaults (if has name fields then fields else put name value fields)

-- `tuple(fields[column] for column in columns)`
unfoldable pub bound_values : List Text → Spec → Program (List Param)
unfolding item
bound_values [] fields = returns []
bound_values (name ∷ names) fields = do
  value ← lift (item name fields)
  params ← bound_values names fields
  returns (plain value ∷ params)

-- The statement of `Table.save`.
abbrev pub base_write : Table → ℤ → List Param → Program ℕ
unfolding insert_of update_of
base_write table save_recid params =
    if is_given save_recid
    then modify (update_of table table.columns) (params ++ plain (int save_recid) ∷ [])
    else modify (insert_of table 1) params

-- `Table.save`
unfoldable pub base_save : Table → ℤ → Spec → Program ℕ
unfolding bound_values with_defaults base_write
base_save table save_recid fields = do
  params ← bound_values table.columns (with_defaults table.defaults fields)
  base_write table save_recid params

-- The first statement of `Records.save`.
abbrev pub rrset_upsert : Text
rrset_upsert = lines (
    codes ""
    ∷ codes
        "            INSERT INTO `rrsets` (`domain_id`, `name`, `type_value`, `ttl`, `routing_id`)"
    ∷ codes "              SELECT (SELECT `id` FROM `domains` WHERE `domain` = %s), %s,"
    ∷ codes "                (SELECT `value` FROM `types` WHERE `type` = %s), %s,"
    ∷ codes "                (SELECT `id` FROM `routings` WHERE `policy` = %s)"
    ∷ codes "            ON DUPLICATE KEY UPDATE `id` = LAST_INSERT_ID(`id`), `ttl` = %s,"
    ∷ codes "              `routing_id` = (SELECT `id` FROM `routings` WHERE `policy` = %s)"
    ∷ codes "        "
    ∷ [])

abbrev pub record_update : Text
record_update = lines (
    codes ""
    ∷ codes "                UPDATE `records`"
    ∷ codes "                SET `rrset_id` = LAST_INSERT_ID(),"
    ∷ codes "                  `content` = %s,"
    ∷ codes "                  `monitor_id` = (SELECT `id` FROM `monitors` WHERE `monitor` = %s),"
    ∷ codes "                  `view_id` = (SELECT `id` FROM `views` WHERE `view` = %s),"
    ∷ codes "                  `disabled` = %s,"
    ∷ codes "                  `weight` = %s"
    ∷ codes "                WHERE `id` = %s"
    ∷ codes "            "
    ∷ [])

abbrev pub record_insert : Text
record_insert = lines (
    codes ""
    ∷ codes "                INSERT INTO `records`"
    ∷ codes
        "                  (`rrset_id`, `content`, `monitor_id`, `view_id`, `disabled`, `weight`)"
    ∷ codes "                  SELECT LAST_INSERT_ID(), %s,"
    ∷ codes "                    (SELECT `id` FROM `monitors` WHERE `monitor` = %s),"
    ∷ codes "                    (SELECT `id` FROM `views` WHERE `view` = %s), %s, %s"
    ∷ codes "            "
    ∷ [])

-- `fields.get(name, 0)`
abbrev pub or_zero : Option Value → Value
or_zero none = int (pos 0)
or_zero (some value) = value

-- `int(test)`
abbrev pub as_int : Bool → ℤ
as_int true = pos 1
as_int false = pos 0

-- The second statement of `Records.save`.
unfoldable pub record_write : ℤ → List Param → Program ℕ
record_write save_recid written =
    if is_given save_recid
    then modify record_update (written ++ plain (int save_recid) ∷ [])
    else modify record_insert written

module _ (python : Python) (casing : Casing) where
  -- `int(str(fields.get('disabled', 0)).lower() in ('1', 'true'))`
  unfoldable pub disabled_of : Spec → ℤ
  unfolding get
  disabled_of fields =
      let text = casing.lower (python.show (or_zero (get (codes "disabled") fields))) in
      as_int (text_eq text (codes "1") || text_eq text (codes "true"))

  -- `Records.save`
  unfoldable pub records_save : ℤ → Spec → Program ℕ
  unfolding item disabled_of get record_write
  records_save save_recid fields = do
    domain ← lift (item (codes "domain") fields)
    name ← lift (item (codes "name") fields)
    name_type ← lift (item (codes "name_type") fields)
    ttl ← lift (item (codes "ttl") fields)
    policy ← lift (item (codes "policy") fields)
    content ← lift (item (codes "content") fields)
    monitor ← lift (item (codes "monitor") fields)
    view ← lift (item (codes "view") fields)
    let written =
        plain content
        ∷ plain monitor
        ∷ plain view
        ∷ plain (int (disabled_of fields))
        ∷ plain (or_zero (get (codes "weight") fields))
        ∷ []
    affected ← modify rrset_upsert (
        plain domain
        ∷ plain name
        ∷ plain name_type
        ∷ plain ttl
        ∷ plain policy
        ∷ plain ttl
        ∷ plain policy
        ∷ [])
    more ← record_write save_recid written
    returns (affected + more)

-- `Table.remove`
unfoldable pub base_remove : Table → List ℤ → Program ℕ
unfolding delete_of
base_remove table [] = returns 0
base_remove table (id ∷ ids) =
    modify (delete_of table (length (id ∷ ids))) (map (λ id. plain (int id)) (id ∷ ids))

-- `remove`, of each class
unfoldable pub remove_of : Kind → Table → List ℤ → Program ℕ
unfolding base_remove
remove_of audit table ids = raises value_error
remove_of status table ids = raises value_error
remove_of kind table ids = base_remove table ids

abbrev pub remove : Table → List ℤ → Program ℕ
remove table ids = remove_of table.kind table ids

module _ (python : Python) (casing : Casing) (library : Crypt) where
  -- `save`, of each class
  unfoldable pub save_of : Kind → Table → ℤ → Spec → Program ℕ
  unfolding base_save records_save users_save
  save_of base table save_recid fields = base_save table save_recid fields
  save_of audit table save_recid fields = raises value_error
  save_of records table save_recid fields = records_save python casing save_recid fields
  save_of status table save_recid fields = raises value_error
  save_of users table save_recid fields = users_save library table save_recid fields

  abbrev pub save : Table → ℤ → Spec → Program ℕ
  save table save_recid fields = save_of table.kind table save_recid fields

  -- `written_recid`
  unfoldable pub written_recid : Table → ℤ → Spec → Program ℤ
  unfolding item int_value
  written_recid table save_recid fields =
      if mem (codes "recid") table.columns
      then (do value ← lift (item (codes "recid") fields); lift (int_value python value))
      else if is_given save_recid
      then returns save_recid
      else (do
        recid ← last_insert_id
        if recid == 0 then raises runtime_error else returns (pos recid))
