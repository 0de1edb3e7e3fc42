-- ===== src/Database/Table/Trail.antt =====
-- The audit trail (database/mysql/tables.py): `AuditRow` and `Audit.record`.
use powergslb.Base.{ℕ, List, [], ◌∷◌, ◌++◌, Option, none, some, Text, length}
use powergslb.Base.Dict.{text_key}
use powergslb.Base.Values.{ℤ, Value, int, str, null}
use powergslb.Database.Program.{Program, returns, modify}
use powergslb.Database.Statement.{Param, plain}
use powergslb.Database.Table.{Table, insert_of}

-- `AuditRow`
pub record AuditRow : Type 0 where
  pub user : Text
  pub client_ip : Text
  pub action : Text
  pub data_token : Text
  pub record_id : ℤ
  pub record_before : Option Text
  pub record_after : Option Text

abbrev text_or_null : Option Text → Value
text_or_null none = null
text_or_null (some text) = str text

-- The values of an audit row, in the order of its fields.
abbrev pub audit_values : AuditRow → List Param
audit_values row =
    plain (str row.user)
    ∷ plain (str row.client_ip)
    ∷ plain (str row.action)
    ∷ plain (str row.data_token)
    ∷ plain (int row.record_id)
    ∷ plain (text_or_null row.record_before)
    ∷ plain (text_or_null row.record_after)
    ∷ []

abbrev pub all_values : List AuditRow → List Param
all_values [] = []
all_values (row ∷ rows) = audit_values row ++ all_values rows

-- `Audit.record`
unfoldable pub record_rows : Table → List AuditRow → Program ℕ
unfolding insert_of
record_rows table [] = returns 0
record_rows table (row ∷ rows) =
    modify (insert_of table (length (row ∷ rows))) (all_values (row ∷ rows))
