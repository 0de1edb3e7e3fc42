-- ===== src/Database/W2ui/Deleted.antt =====
-- A deletion that returns, run on the server (database/mysql/w2ui.py): what it read, deleted and recorded.
use powergslb.Base.{ℕ, ◌≡◌, ◌⊎◌, List, [], map, some, Text, Result, ok, length}
use powergslb.Base.Values.{ℤ, int, pos, Value}
use powergslb.Database.Program.{Executor, run}
use powergslb.Database.Statement.{plain}
use powergslb.Database.Table.{Table, delete_of, insert_of}
use powergslb.Database.Table.Keys.{recids}
use powergslb.Database.Table.Paging.{Found}
use powergslb.Database.Table.Reading.{get_rows}
use powergslb.Database.Table.Registry.{audit_table}
use powergslb.Database.Table.Search.{Python}
use powergslb.Database.Table.Trail.{AuditRow, all_values}
use powergslb.Database.W2ui.{UserContext, ids_page}
use powergslb.Database.W2ui.Audited.{Traces}
use powergslb.Password.{Crypt}
use powergslb.Routing.Create.{Spec}
use powergslb.View.{Casing}

module _ (python : Python) (casing : Casing) (library : Crypt) (dumps : Spec → Result Text) where
  module _ (table : Table) (data_token : Text) (context : UserContext) {S : Type 0}
      (db : Executor S) where
    -- After rows were read, the state `s`: nothing was deleted; or the DELETE of the rows' keys was run, and
    -- then the INSERT of one audit row for each of them, with the JSON of the row as it was read.
    abbrev pub Deletes : List Spec → S → ℕ → S → Type 0
    Deletes rows s deleted last =
        (deleted ≡ 0)
        ⊎ ((keys : List ℤ) × (traces : List AuditRow) × (middle : S) × (m : ℕ) × (recids rows
              ≡ ok keys)
            × Traces python casing library dumps data_token context keys rows traces
            × (db.on_modify (delete_of table (length keys)) (map (λ key. plain (int key)) keys) s
                ≡ (ok deleted, middle))
            × (db.on_modify (insert_of audit_table (length traces)) (all_values traces) middle
                ≡ (ok m, last)))

    -- The block has read the rows of these ids, and then so.
    abbrev pub ReadsAndDeletes : List Value → S → ℕ → S → Type 0
    ReadsAndDeletes ids s deleted last =
        (found : Found) × (middle : S) × (run db
            (get_rows python table (pos 0) (some (ids_page ids)) []) s
          ≡ (ok found, middle))
        × Deletes found.0 middle deleted last
