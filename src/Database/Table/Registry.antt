-- ===== src/Database/Table/Registry.antt =====
-- The tables of the admin interface (database/mysql/tables.py), and the registry by which a request's
-- token names one.
pub mod Safety
use powergslb.Base.{List, [], ◌∷◌, ◌++◌, Text, codes, String}
use powergslb.Base.Dict.{Dict, text_key}
use powergslb.Base.Values.{str}
use powergslb.Database.Table.{Table, base, audit, records, status, users}

abbrev names : List String → List Text
names [] = []
names (name ∷ rest) = codes name ∷ names rest

abbrev audit_fields : List Text
audit_fields =
    names (
      "user" ∷ "client_ip" ∷ "action" ∷ "data" ∷ "record_id" ∷ "record_before" ∷ "record_after"
      ∷ [])

-- `AUDIT`
abbrev pub audit_table : Table
audit_table = record {
  kind = audit;
  name = codes "audit";
  key = codes "id";
  fields = names ("recid" ∷ "logged" ∷ []) ++ audit_fields;
  columns = audit_fields;
  aliases = [];
  defaults = [];
}

-- A table of the base class, with the key `id` and no aliases.
abbrev plain_table : String → List String → List String → Table
plain_table name fields columns = record {
  kind = base;
  name = codes name;
  key = codes "id";
  fields = names fields;
  columns = names columns;
  aliases = [];
  defaults = [];
}

-- `DOMAINS`
abbrev pub domains_table : Table
domains_table =
    record (plain_table "domains" ("recid" ∷ "domain" ∷ "description" ∷ [])
      ("domain" ∷ "description" ∷ [])) { defaults = (codes "description", str []) ∷ [] }

-- `MONITORS`
abbrev pub monitors_table : Table
monitors_table =
    plain_table "monitors" ("recid" ∷ "monitor" ∷ "monitor_json" ∷ [])
      ("monitor" ∷ "monitor_json" ∷ [])

-- `RECORDS`
abbrev pub records_table : Table
records_table =
    record (plain_table "records"
      ("recid" ∷ "domain" ∷ "name" ∷ "ttl" ∷ "policy" ∷ "name_type" ∷ "disabled" ∷ "weight"
        ∷ "content" ∷ "monitor" ∷ "view" ∷ [])
      []) { kind = records }

-- `ROUTINGS`
abbrev pub routings_table : Table
routings_table =
    plain_table "routings" ("recid" ∷ "policy" ∷ "policy_json" ∷ []) ("policy" ∷ "policy_json" ∷ [])

-- `STATUS`
abbrev pub status_table : Table
status_table = record records_table {
  kind = status;
  fields = records_table.fields ++ names ("status" ∷ []);
}

-- `TYPES`
abbrev pub types_table : Table
types_table =
    record (plain_table "types" ("recid" ∷ "name_type" ∷ "description" ∷ [])
      ("recid" ∷ "name_type" ∷ "description" ∷ [])) {
        key = codes "value";
        aliases = (codes "name_type", codes "type") ∷ [];
      }

-- `USERS`
abbrev pub users_table : Table
users_table =
    record (plain_table "users" ("recid" ∷ "user" ∷ "name" ∷ "password" ∷ [])
      ("user" ∷ "name" ∷ "password" ∷ [])) { kind = users }

-- `VIEWS`
abbrev pub views_table : Table
views_table = plain_table "views" ("recid" ∷ "view" ∷ "rule" ∷ []) ("view" ∷ "rule" ∷ [])

-- `TABLES`
abbrev pub tables : Dict Text Table
tables =
    (codes "audit", audit_table)
    ∷ (codes "domains", domains_table)
    ∷ (codes "monitors", monitors_table)
    ∷ (codes "records", records_table)
    ∷ (codes "routings", routings_table)
    ∷ (codes "status", status_table)
    ∷ (codes "types", types_table)
    ∷ (codes "users", users_table)
    ∷ (codes "views", views_table)
    ∷ []
