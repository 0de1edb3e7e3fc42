-- ===== src/Database/Connection.antt =====
-- MySQLDatabase (database/mysql/database.py): reconnecting, statements and transactions, over the calls of
-- mysql.connector. What the connector answers is a parameter; logging and the cursor's rows are left out.
pub mod Session
pub mod Cursor
pub mod Transaction
pub mod Programs
use powergslb.Database.Statement.{join_operation}
use powergslb.Base.{
  ℕ, zero, suc, Bool, true, false, List, [], ◌∷◌, Option, none, some, Result, ok, err,
  database_error, if◌then◌else◌, Text,
}

-- One call of mysql.connector, with the number of the connection that it is made on.
pub data Call : Type 0 where
  connect : ℕ → Call
  close : ℕ → Call
  cursor : ℕ → Call
  execute : ℕ → Text → Call
  close_cursor : ℕ → Call
  is_connected : ℕ → Call
  autocommit : Bool → ℕ → Call
  commit : ℕ → Call
  rollback : ℕ → Call

-- The connector: its answer to a call, by the calls before it. `none` is an exception, and an executed
-- statement answers its `lastrowid`.
abbrev pub Connector : Type 0
Connector = List Call → Call → Option ℕ

-- The object, with the connections numbered in the order they were opened, and the calls so far, the
-- newest first.
pub record MySqlDatabase : Type 0 where
  pub connection : ℕ
  pub last_insert_id : ℕ
  pub in_transaction : Bool
  pub calls : List Call

-- What a method returns or raises, and the object after it.
abbrev pub Step : Type 0 → Type 0
Step A = Result A × MySqlDatabase

abbrev pub called : Call → MySqlDatabase → MySqlDatabase
called call db = record db { calls = call ∷ db.calls }

-- `last_insert_id`
unfoldable pub last_insert_id_of : MySqlDatabase → ℕ
last_insert_id_of db = db.last_insert_id

module _ (connector : Connector) where
  -- `mysql.connector.connect(...)`, the next connection.
  abbrev pub reconnected : Option ℕ → MySqlDatabase → Step (Unit {0})
  reconnected none db = (err database_error, called (connect (suc db.connection)) db)
  reconnected (some n) db =
      (ok tt, record (called (connect (suc db.connection)) db) { connection = suc db.connection })

  -- `_reconnect`: the old connection is closed, whatever that raises.
  unfoldable pub reconnect : MySqlDatabase → Step (Unit {0})
  reconnect db =
      let closed = called (close db.connection) db in
      reconnected (connector closed.calls (connect (suc closed.connection))) closed

  -- `self._connection.cursor(buffered=True)`
  abbrev cursor_of : Option ℕ → MySqlDatabase → Step (Unit {0})
  cursor_of none db = (err database_error, called (cursor db.connection) db)
  cursor_of (some n) db = (ok tt, called (cursor db.connection) db)

  unfoldable pub new_cursor : MySqlDatabase → Step (Unit {0})
  new_cursor db = cursor_of (connector db.calls (cursor db.connection)) db

  -- `self._connection.is_connected()`, which does not raise: 0 is `False`.
  abbrev answered_yes : Option ℕ → Bool
  answered_yes none = false
  answered_yes (some zero) = false
  answered_yes (some (suc n)) = true

  abbrev pub pings : MySqlDatabase → Bool
  pings db = answered_yes (connector db.calls (is_connected db.connection))

  -- The second try, where reconnecting succeeded.
  abbrev retried : Step (Unit {0}) → Step (Unit {0})
  retried (ok x, db) = new_cursor db
  retried (err e, db) = (err e, db)

  -- The `except` clause of `_open_cursor`.
  abbrev recovered : Step (Unit {0}) → Step (Unit {0})
  recovered (ok x, db) = (ok x, db)
  recovered (err e, db) =
      let pinged = called (is_connected db.connection) db in
      if db.in_transaction
      then (err e, db)
      else if pings db
      then (err e, pinged)
      else retried (reconnect pinged)

  -- `_open_cursor`
  unfoldable pub open_cursor : MySqlDatabase → Step (Unit {0})
  unfolding reconnect new_cursor
  open_cursor db = recovered (new_cursor db)

  -- `cursor.close()`, of a statement that ran.
  abbrev closed : Option ℕ → MySqlDatabase → Step (Unit {0})
  closed none db = (err database_error, called (close_cursor db.connection) db)
  closed (some n) db = (ok tt, called (close_cursor db.connection) db)

  -- `cursor.execute(...)`, `lastrowid`, and `cursor.close()` in the `finally` clause.
  abbrev executed : Text → Option ℕ → MySqlDatabase → Step (Unit {0})
  executed operation none db = (
    err database_error,
    called (close_cursor db.connection) (called (execute db.connection operation) db),
  )
  executed operation (some n) db =
      let run = record (called (execute db.connection operation) db) { last_insert_id = n } in
      closed (connector run.calls (close_cursor run.connection)) run

  abbrev pub executes : Text → Step (Unit {0}) → Step (Unit {0})
  executes operation (ok x, db) =
      executed operation (connector db.calls (execute db.connection operation)) db
  executes operation (err e, db) = (err e, db)

  -- One statement, as `select` and `modify` run it through `_cursor`.
  unfoldable pub run_statement : Text → MySqlDatabase → Step (Unit {0})
  unfolding open_cursor
  run_statement operation db = executes (join_operation operation) (open_cursor db)

  -- What the server returned for a statement, where it ran.
  abbrev pub valued : {A : Type 0} → A → Step (Unit {0}) → Step A
  valued value (ok x, db) = (ok value, db)
  valued value (err e, db) = (err e, db)

  -- `select`, with the rows that the server returned, and `modify`, with the number of rows affected.
  unfoldable pub select : {A : Type 0} → List A → Text → MySqlDatabase → Step (List A)
  unfolding run_statement
  select rows operation db = valued rows (run_statement operation db)

  unfoldable pub modify : ℕ → Text → MySqlDatabase → Step ℕ
  unfolding run_statement
  modify rowcount operation db = valued rowcount (run_statement operation db)

  -- The statements of a block, up to the first that raises.
  abbrev pub then_run : (MySqlDatabase → Step (Unit {0})) → Step (Unit {0}) → Step (Unit {0})
  then_run rest (ok x, db) = rest db
  then_run rest (err e, db) = (err e, db)

  unfoldable pub run_block : List Text → MySqlDatabase → Step (Unit {0})
  unfolding run_statement
  run_block [] db = (ok tt, db)
  run_block (operation ∷ operations) db =
      then_run (λ after. run_block operations after) (run_statement operation db)

  -- The `except` clause of `transaction`: rolled back, whatever that raises.
  abbrev pub rolled_back : MySqlDatabase → MySqlDatabase
  rolled_back db = called (rollback db.connection) db

  abbrev pub committed : Option ℕ → MySqlDatabase → Step (Unit {0})
  committed none db = (err database_error, rolled_back (called (commit db.connection) db))
  committed (some n) db = (ok tt, called (commit db.connection) db)

  abbrev pub ended : Step (Unit {0}) → Step (Unit {0})
  ended (ok x, db) = committed (connector db.calls (commit db.connection)) db
  ended (err e, db) = (err e, rolled_back db)

  -- The `finally` clause: an exception of its own replaces the block's.
  abbrev pub restored : Option ℕ → Step (Unit {0}) → Step (Unit {0})
  restored none (r, db) = (
    err database_error,
    record (called (autocommit true db.connection) db) { in_transaction = false },
  )
  restored (some n) (r, db) =
      (r, record (called (autocommit true db.connection) db) { in_transaction = false })

  abbrev pub finally : Step (Unit {0}) → Step (Unit {0})
  finally (r, db) = restored (connector db.calls (autocommit true db.connection)) (r, db)

  -- The block, once autocommit is suspended.
  abbrev pub begun : Option ℕ → (MySqlDatabase → Step (Unit {0})) → MySqlDatabase → Step (Unit {0})
  begun none block db = (err database_error, called (autocommit false db.connection) db)
  begun (some n) block db = finally (
      ended (block (record (called (autocommit false db.connection) db) { in_transaction = true })))

  abbrev pub checked : (MySqlDatabase → Step (Unit {0})) → Step (Unit {0}) → Step (Unit {0})
  checked block (ok x, db) = begun (connector db.calls (autocommit false db.connection)) block db
  checked block (err e, db) = (err e, db)

  -- `with transaction(): block`
  unfoldable pub transaction : (MySqlDatabase → Step (Unit {0})) → MySqlDatabase → Step (Unit {0})
  unfolding reconnect
  transaction block db =
      let pinged = called (is_connected db.connection) db in
      checked block (if pings db then (ok tt, pinged) else reconnect pinged)
