-- ===== src/Database/Connection/Session.antt =====
-- The statements of a transaction run on one connection.
use powergslb.Base.{
  ℕ, ◌≡◌, refl, sym, ap, ◌∙◌, subst, Bool, true, false, List, [], ◌∷◌, ◌++◌, Option-cases, inl, inr,
  Result, ok, err, Text, All, All-append,
}
use powergslb.Database.Statement.{join_operation}
use powergslb.Database.Connection.{
  Call, connect, close, cursor, execute, close_cursor, is_connected, autocommit, commit, rollback,
  Connector, MySqlDatabase, Step, open_cursor, run_statement, run_block, executes, then_run,
}
use mathlib.Core.List.{append_assoc}

-- The connection that a call is made on.
abbrev pub number : Call → ℕ
number (connect n) = n
number (close n) = n
number (cursor n) = n
number (execute n operation) = n
number (close_cursor n) = n
number (is_connected n) = n
number (autocommit b n) = n
number (commit n) = n
number (rollback n) = n

abbrev pub is_statement : Call → Bool
is_statement (cursor n) = true
is_statement (execute n operation) = true
is_statement (close_cursor n) = true
is_statement _ = false

-- A call of a statement, on that connection.
abbrev pub Statement : ℕ → Call → Type 0
Statement n call = (number call ≡ n) × (is_statement call ≡ true)

-- The calls of a statement whose cursor is open, in front of the calls before.
abbrev ran : ℕ → Text → List Call → List Call
ran n operation calls = close_cursor n ∷ execute n operation ∷ calls

-- After a step in a transaction: the same connection, still in the transaction, and the fresh calls are
-- all calls of statements on that connection.
pub record InSession (db : MySqlDatabase) (step : Step (Unit {0})) : Type 0 where
  pub same : step.1.connection ≡ db.connection
  pub within : step.1.in_transaction ≡ true
  pub fresh : List Call
  pub made : step.1.calls ≡ fresh ++ db.calls
  pub statements : All (Statement db.connection) fresh

module _ (connector : Connector) where
  open_cursor-InSession :
      (db : MySqlDatabase) → db.in_transaction ≡ true → InSession db (open_cursor connector db)
  unfolding open_cursor
  open_cursor-InSession db h = elim (Option-cases (connector db.calls (cursor db.connection))) [
    | inl e ↦
        rw (e, h)
          (record {
            same = refl;
            within = refl;
            fresh = cursor db.connection ∷ [];
            made = refl;
            statements = ((refl, refl), tt);
          })
    | inr (n, e) ↦ rw e (record {
      same = refl;
      within = h;
      fresh = cursor db.connection ∷ [];
      made = refl;
      statements = ((refl, refl), tt);
    })
  ]

  executes-InSession :
      (operation : Text) (db : MySqlDatabase) (r : Result (Unit {0})) (after : MySqlDatabase)
      → InSession db (r, after)
      → InSession db (executes connector operation (r, after))
  executes-InSession operation db (err e) after t = t
  executes-InSession operation db (ok x) after t =
      elim (Option-cases (connector after.calls (execute after.connection operation))) [
        | inl e ↦ rw e (record {
          same = t.same;
          within = t.within;
          fresh = ran after.connection operation t.fresh;
          made = longer;
          statements = all_there;
        })
        | inr (n, e) ↦
            elim (Option-cases (
              connector (execute after.connection operation ∷ after.calls)
                (close_cursor after.connection))) [
                  | inl f ↦
                      rw (e, f)
                        (record {
                          same = t.same;
                          within = t.within;
                          fresh = ran after.connection operation t.fresh;
                          made = longer;
                          statements = all_there;
                        })
                  | inr (m, f) ↦
                      rw (e, f)
                        (record {
                          same = t.same;
                          within = t.within;
                          fresh = ran after.connection operation t.fresh;
                          made = longer;
                          statements = all_there;
                        })
                ]
      ]
    where
      longer :
          ran after.connection operation after.calls
          ≡ ran after.connection operation t.fresh ++ db.calls
      longer = ap (ran after.connection operation) t.made

      all_there : All (Statement db.connection) (ran after.connection operation t.fresh)
      all_there = ((t.same, refl), ((t.same, refl), t.statements))

  pub run_statement-InSession :
      (operation : Text) (db : MySqlDatabase)
      → db.in_transaction ≡ true
      → InSession db (run_statement connector operation db)
  unfolding run_statement
  run_statement-InSession operation db h =
      executes-InSession (join_operation operation) db (open_cursor connector db).0
        (open_cursor connector db).1 (open_cursor-InSession db h)

pub InSession-trans :
    (db middle : MySqlDatabase) (r s : Result (Unit {0})) (after : MySqlDatabase)
    → InSession db (r, middle)
    → InSession middle (s, after)
    → InSession db (s, after)
InSession-trans db middle r s after t u = record {
  same = u.same ∙ t.same;
  within = u.within;
  fresh = u.fresh ++ t.fresh;
  made =
      u.made ∙ ap (λ calls. u.fresh ++ calls) t.made ∙ sym (append_assoc u.fresh t.fresh db.calls);
  statements =
      All-append (Statement db.connection) u.fresh t.fresh
        (subst (λ n. All (Statement n) u.fresh) t.same u.statements) t.statements;
}

module _ (connector : Connector) where
  -- In a transaction, the statements of a block all run on the connection that the transaction began on,
  -- up to the first that raises: a connection that is lost is not replaced in the middle of a block.
  pub run_block-InSession :
      (operations : List Text) (db : MySqlDatabase)
      → db.in_transaction ≡ true
      → InSession db (run_block connector operations db)
  unfolding run_block
  run_block-InSession [] db h = record {
    same = refl;
    within = h;
    fresh = [];
    made = refl;
    statements = tt;
  }
  run_block-InSession (operation ∷ operations) db h =
      go (run_statement connector operation db).0 (run_statement connector operation db).1
        (run_statement-InSession connector operation db h)
        (λ middle. run_block-InSession operations middle)
    where
      go :
          (r : Result (Unit {0})) (middle : MySqlDatabase)
          → InSession db (r, middle)
          → ((m : MySqlDatabase)
              → m.in_transaction ≡ true
              → InSession m (run_block connector operations m))
          → InSession db
              (then_run connector (λ after. run_block connector operations after) (r, middle))
      go (err e) middle t later = t
      go (ok x) middle t later =
          InSession-trans db middle (ok x) (run_block connector operations middle).0
            (run_block connector operations middle).1 t (later middle t.within)
