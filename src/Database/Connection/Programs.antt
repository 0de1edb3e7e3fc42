-- ===== src/Database/Connection/Programs.antt =====
-- The methods of the tables on a database's connection (database/mysql/database.py, w2ui.py): what the server
-- returns for a statement is a parameter, by the calls before it.
use powergslb.Base.{ℕ, refl, List, [], ok, err, Text}
use powergslb.Database.Connection.{
  Call, Connector, MySqlDatabase, Step, run_statement, select, modify, last_insert_id_of, valued,
}
use powergslb.Database.Connection.Session.{InSession, InSession-trans, run_statement-InSession}
use powergslb.Database.Connection.Transaction.{Block, RunsStatements}
use powergslb.Database.Program.{
  Program, returns, raises, selects, modifies, last_inserted, Executor, run, answered,
}
use powergslb.Database.Statement.{Param}
use powergslb.Routing.Create.{Spec}

-- The rows of a statement, and the number that it affects.
pub record Server : Type 0 where
  pub rows : List Call → Text → List Param → List Spec
  pub affected : List Call → Text → List Param → ℕ

module _ (connector : Connector) (server : Server) where
  -- The database as the executor of the tables' methods.
  abbrev pub executor : Executor MySqlDatabase
  executor = record {
    on_select = λ operation params db.
        select connector (server.rows db.calls operation params) operation db;
    on_modify = λ operation params db.
        modify connector (server.affected db.calls operation params) operation db;
    last_id = last_insert_id_of;
  }

  abbrev pub without_value : {A : Type 0} → Step A → Step (Unit {0})
  without_value (ok a, db) = (ok tt, db)
  without_value (err e, db) = (err e, db)

  -- A method as the block of a transaction; its value is what the block computes.
  unfoldable pub block_of : {A : Type 0} → Program A → Block
  unfolding select modify last_insert_id_of
  block_of program db = without_value (run executor program db)

  answered-InSession :
      {A V : Type 0} (next : V → Program A) (value : V) (db : MySqlDatabase)
      (step : Step (Unit {0}))
      → InSession db step
      → ((v : V) → RunsStatements (λ m. without_value (run executor (next v) m)))
      → InSession db (
          without_value
            (answered (λ v after. run executor (next v) after) (valued connector value step)))
  answered-InSession next value db (err e, middle) t later = t
  answered-InSession next value db (ok x, middle) t later =
      let rest = without_value (run executor (next value) middle) in
      InSession-trans db middle (ok x) rest.0 rest.1 t (later value middle t.within)

  -- Whatever a method raises, and whatever the server answers, all that it does to the connection is to run
  -- statements on it.
  pub block_of-RunsStatements :
      {A : Type 0} (program : Program A) → RunsStatements (block_of program)
  unfolding block_of
  block_of-RunsStatements (returns a) db h = record {
    same = refl;
    within = h;
    fresh = [];
    made = refl;
    statements = tt;
  }
  block_of-RunsStatements (raises e) db h = record {
    same = refl;
    within = h;
    fresh = [];
    made = refl;
    statements = tt;
  }
  block_of-RunsStatements (selects operation params next) db h =
      answered-InSession next (server.rows db.calls operation params) db
        (run_statement connector operation db) (run_statement-InSession connector operation db h)
        (λ rows. block_of-RunsStatements (next rows))
  block_of-RunsStatements (modifies operation params next) db h =
      answered-InSession next (server.affected db.calls operation params) db
        (run_statement connector operation db) (run_statement-InSession connector operation db h)
        (λ n. block_of-RunsStatements (next n))
  block_of-RunsStatements (last_inserted next) db h =
      block_of-RunsStatements (next db.last_insert_id) db h
