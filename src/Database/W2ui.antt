-- ===== src/Database/W2ui.antt =====
-- The admin's reads and audited writes (database/mysql/w2ui.py). The block of a transaction is the program
-- that it runs; `json.dumps` of a row is a parameter.
pub mod Log
pub mod Audited
pub mod Saved
pub mod Deleted
pub mod Stored
use powergslb.Base.{
  ℕ, Bool, List, [], ◌∷◌, Option, none, some, if◌then◌else◌, ◌==◌, Text, codes, Result, ok, err,
  value_error, zero, suc,
}
use powergslb.Base.Dict.{get, text_key}
use powergslb.Base.Values.{ℤ, pos, Value, Values, list, nil, cons, str}
use powergslb.Database.Page.{PageRequest}
use powergslb.Database.Program.{Program, returns, raises, lift, ◌>>=◌}
use powergslb.Database.Table.{Table}
use powergslb.Database.Table.Accounts.{check_user}
use powergslb.Database.Table.Keys.{recids}
use powergslb.Database.Table.Paging.{Found}
use powergslb.Database.Table.Reading.{is_given, get_rows, get_of}
use powergslb.Database.Table.Registry.{tables, audit_table, users_table}
use powergslb.Database.Table.Search.{Python}
use powergslb.Database.Table.Trail.{AuditRow, record_rows}
use powergslb.Database.Table.Writing.{save, save_of, remove, remove_of, written_recid}
use powergslb.Password.{Crypt}
use powergslb.Routing.Create.{Spec}
use powergslb.View.{Casing}

-- `UserContext`
pub record UserContext : Type 0 where
  pub id : ℤ
  pub user : Text
  pub name : Text
  pub client_ip : Text

abbrev registered : Option Table → Result Table
registered none = err value_error
registered (some table) = ok table

-- `_table`
unfoldable pub table_of : Text → Result Table
unfolding get
table_of data_token = registered (get data_token tables)

abbrev map_ok : {A B : Type 0} → (A → B) → Result A → Result B
map_ok f (ok a) = ok (f a)
map_ok f (err e) = err e

abbrev pub first_row : List Spec → Option Spec
first_row [] = none
first_row (row ∷ rows) = some row

abbrev values_of : List Value → Values
values_of [] = nil
values_of (value ∷ values) = cons value (values_of values)

-- The page of the rows whose keys are selected.
abbrev pub ids_page : List Value → PageRequest
ids_page ids = record {
  searches =
      record {
        field_name = codes "recid";
        type = codes "int";
        operator = codes "in";
        value = list (values_of ids);
      }
      ∷ [];
  or_logic = Bool.false;
  sorts = [];
  limit = none;
  offset = none;
}

module _ (python : Python) (casing : Casing) (library : Crypt) (dumps : Spec → Result Text) where
  -- `_record_json`
  unfoldable pub record_json : Option Spec → Program (Option Text)
  record_json none = returns none
  record_json (some row) = do text ← lift (dumps row); returns (some text)

  -- `_audit_row`
  unfoldable pub audit_row :
      Text → Text → UserContext → ℤ → Option Spec → Option Spec → Program AuditRow
  unfolding record_json
  audit_row action data_token context record_id before after = do
    old ← record_json before
    new ← record_json after
    returns (record {
      user = context.user;
      client_ip = context.client_ip;
      action = action;
      data_token = data_token;
      record_id = record_id;
      record_before = old;
      record_after = new;
    })

  -- `_read_row`
  unfoldable pub read_row : Table → ℤ → Program (Option Spec)
  unfolding get_of
  read_row table recid = do
    (rows, total) ← get_rows python table recid none []
    returns (first_row rows)

  -- `check_user`
  unfoldable pub check_login : Text → Text → Value → Program (List Spec)
  unfolding check_user
  check_login dummy user password = check_user library users_table dummy user password

  -- The audit rows of a deletion.
  unfoldable pub deleted_rows : Text → UserContext → List ℤ → List Spec → Program (List AuditRow)
  unfolding audit_row
  deleted_rows data_token context (key ∷ keys) (row ∷ rows) = do
    trace ← audit_row (codes "delete") data_token context key (some row) none
    traces ← deleted_rows data_token context keys rows
    returns (trace ∷ traces)
  deleted_rows data_token context keys rows = returns []

  -- The end of a deletion.
  unfoldable pub audit_deletion : Text → UserContext → List ℤ → List Spec → ℕ → Program ℕ
  unfolding deleted_rows record_rows
  audit_deletion data_token context keys rows zero = returns 0
  audit_deletion data_token context keys rows (suc n) = do
    traces ← deleted_rows data_token context keys rows
    recorded ← record_rows audit_table traces
    returns (suc n)

  -- The block of `delete_data`.
  unfoldable pub delete_block : Table → Text → List Value → UserContext → Program ℕ
  unfolding get_of recids remove_of audit_deletion
  delete_block table data_token ids context = do
    (rows, total) ← get_rows python table (pos 0) (some (ids_page ids)) []
    keys ← lift (recids rows)
    deleted ← remove table keys
    audit_deletion data_token context keys rows deleted

  -- The row read back after a save.
  unfoldable pub audit_stored : Text → UserContext → Option Spec → ℕ → ℤ → Option Spec → Program ℕ
  unfolding audit_row record_rows
  audit_stored data_token context before affected recid none = raises value_error
  audit_stored data_token context before affected recid (some row) = do
    trace ← audit_row (codes "save") data_token context recid before (some row)
    recorded ← record_rows audit_table (trace ∷ [])
    returns affected

  -- The end of a save.
  unfoldable pub audit_save : Table → Text → UserContext → ℤ → Spec → Option Spec → ℕ → Program ℕ
  unfolding written_recid read_row audit_stored
  audit_save table data_token context save_recid fields before zero = returns 0
  audit_save table data_token context save_recid fields before (suc n) = do
    recid ← written_recid python casing library table save_recid fields
    after ← read_row table recid
    audit_stored data_token context before (suc n) recid after

  -- `self._read_row(table, save_recid) if save_recid else None`
  unfoldable pub read_before : Table → ℤ → Program (Option Spec)
  unfolding read_row
  read_before table save_recid =
      if is_given save_recid then read_row table save_recid else returns none

  -- The block of `save_data`.
  unfoldable pub save_block : Table → Text → ℤ → UserContext → Spec → Program ℕ
  unfolding read_before save_of audit_save
  save_block table data_token save_recid context fields = do
    before ← read_before table save_recid
    affected ← save python casing library table save_recid fields
    audit_save table data_token context save_recid fields before affected

  -- `delete_data` and `save_data`: the block that the transaction runs, where the token names a table.
  unfoldable pub delete_data : Text → List Value → UserContext → Result (Program ℕ)
  unfolding table_of delete_block
  delete_data data_token ids context =
      map_ok (λ table. delete_block table data_token ids context) (table_of data_token)

  unfoldable pub save_data : Text → ℤ → UserContext → Spec → Result (Program ℕ)
  unfolding table_of save_block
  save_data data_token save_recid context fields =
      map_ok (λ table. save_block table data_token save_recid context fields) (table_of data_token)

  -- `get_data`
  unfoldable pub get_data : Text → ℤ → Option PageRequest → List ℕ → Result (Program Found)
  unfolding table_of get_of
  get_data data_token recid page down_ids =
      map_ok (λ table. get_rows python table recid page down_ids) (table_of data_token)
