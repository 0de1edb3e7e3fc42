-- ===== src/Database/Connection/Transaction.antt =====
-- How a transaction ends.
use powergslb.Base.{
  ℕ, ◌≡◌, ◌⊎◌, true, false, List, ◌∷◌, ◌++◌, none, some, Result, ok, err, Error, All,
}
use powergslb.Database.Connection.{
  Call, autocommit, commit, rollback, Connector, MySqlDatabase, Step,
}
use powergslb.Database.Connection.Session.{Statement, InSession, is_statement}

-- The block of a transaction.
abbrev pub Block : Type 0
Block = MySqlDatabase → Step (Unit {0})

-- In a transaction, all that the block does to the connection is to run statements on it.
abbrev pub RunsStatements : Block → Type 0
RunsStatements block = (db : MySqlDatabase) → db.in_transaction ≡ true → InSession db (block db)

-- The block's part in a transaction: begun on an object whose latest call suspends autocommit, and where no
-- statement was run since the transaction's start, it ended with a result and an object, and between the two are
-- statements on one connection.
pub record Part (block : Block) (before : List Call) (result : Result (Unit {0}))
    (after : MySqlDatabase) : Type 0 where
  pub begun_on : MySqlDatabase
  pub older : List Call
  pub quiet : List Call
  pub fresh : List Call
  pub result_of : block begun_on ≡ (result, after)
  pub suspended : begun_on.calls ≡ autocommit false after.connection ∷ older
  pub opened : older ≡ quiet ++ before
  pub still : All (λ c. is_statement c ≡ false) quiet
  pub made : after.calls ≡ fresh ++ begun_on.calls
  pub statements : All (Statement after.connection) fresh

-- The result is the block's, unless the return of autocommit raises.
abbrev pub Keeps : Result (Unit {0}) → Result (Unit {0}) → Type 0
Keeps kept r = (r ≡ kept) ⊎ ((e : Error) × (r ≡ err e))

-- How it ended: before the block; or with a commit of all that the block did, where the block returned; or
-- with a rollback of it, where the block raised or the commit failed. After the block only these calls are
-- made, and the return of autocommit.
pub data Ending (connector : Connector) (block : Block) (r : Result (Unit {0}))
    (before calls : List Call) : Type 0 where
  not_begun :
      (e : Error) (fresh : List Call)
      → r ≡ err e
      → calls ≡ fresh ++ before
      → All (λ c. is_statement c ≡ false) fresh
      → Ending connector block r before calls
  was_committed :
      (after : MySqlDatabase)
      → Part block before (ok tt) after
      → (n : ℕ) × (connector after.calls (commit after.connection) ≡ some n)
      → Keeps (ok tt) r
      → calls ≡ autocommit true after.connection ∷ commit after.connection ∷ after.calls
      → Ending connector block r before calls
  block_raised :
      (e f : Error) (after : MySqlDatabase)
      → Part block before (err e) after
      → Keeps (err e) r
      → r ≡ err f
      → calls ≡ autocommit true after.connection ∷ rollback after.connection ∷ after.calls
      → Ending connector block r before calls
  commit_failed :
      (f : Error) (after : MySqlDatabase)
      → Part block before (ok tt) after
      → connector after.calls (commit after.connection) ≡ none
      → r ≡ err f
      → calls
        ≡ autocommit true after.connection
          ∷ rollback after.connection
          ∷ commit after.connection
          ∷ after.calls
      → Ending connector block r before calls

-- The transaction is over, however it ended.
abbrev pub Ended : Connector → Block → List Call → Step (Unit {0}) → Type 0
Ended connector block before step =
    (step.1.in_transaction ≡ false) × Ending connector block step.0 before step.1.calls

module _ (connector : Connector) where
  -- The `finally` clause keeps the result, or raises, and adds the restoring call.
  abbrev Restores : Step (Unit {0}) → Step (Unit {0}) → Type 0
  Restores step after =
      (after.1.in_transaction ≡ false)
      × (after.1.calls ≡ autocommit true step.1.connection ∷ step.1.calls)
      × Keeps step.0 after.0
