-- ===== src/Database/Connection/Cursor.antt =====
-- Opening a cursor, with the reconnect.
use powergslb.Base.{
  ℕ, suc, ◌≤◌, ◌≡◌, refl, sym, subst, Bool, true, false, List, [], ◌∷◌, ◌++◌, none, some,
  Option-cases, Bool-cases, inl, inr, arith, Result, ok, err, if◌then◌else◌,
}
use powergslb.Database.Connection.{
  Call, connect, close, cursor, is_connected, Connector, MySqlDatabase, Step, called, pings,
  open_cursor,
}

abbrev is_connect : Call → Bool
is_connect (connect n) = true
is_connect _ = false

-- How many connections the calls open.
abbrev pub connects : List Call → ℕ
connects [] = 0
connects (call ∷ calls) = let n = connects calls in if is_connect call then suc n else n

-- The last call, where there is a cursor, opened it on the connection that is now the object's.
abbrev pub OnCurrent : Result (Unit {0}) → ℕ → List Call → Type 0
OnCurrent (ok x) n calls = (older : List Call) × (calls ≡ cursor n ∷ older)
OnCurrent (err e) n calls = Unit

abbrev pub Opens : Bool → MySqlDatabase → Step (Unit {0}) → Type 0
Opens may_reconnect db step =
    (fresh : List Call) × (step.1.calls ≡ fresh ++ db.calls)
    × (connects fresh ≤ (if may_reconnect then 1 else 0))
    × OnCurrent step.0 step.1.connection step.1.calls

-- Whether the connection is given up: the cursor failed, outside a transaction, and the server does not
-- answer a ping.
abbrev pub is_lost : Connector → MySqlDatabase → Bool
is_lost connector db =
    let failed = called (cursor db.connection) db in
    elim (connector db.calls (cursor db.connection)) [
      | some n ↦ false
      | none ↦ if db.in_transaction then false else if pings connector failed then false else true
    ]

-- A cursor that is opened stands on the object's connection. The connection is replaced at most once, and
-- only if opening failed outside a transaction on a connection that no longer answers.
pub open_cursor-Opens :
    (connector : Connector) (db : MySqlDatabase)
    → Opens (is_lost connector db) db (open_cursor connector db)
unfolding open_cursor
open_cursor-Opens connector db = elim (Option-cases (connector db.calls (cursor n))) [
  | inr (k, e) ↦ rw e (cursor n ∷ [], refl, omega arith, (db.calls, refl))
  | inl e ↦ elim (Bool-cases db.in_transaction) [
    | inl t ↦ rw (e, t) (cursor n ∷ [], refl, omega arith, tt)
    | inr t ↦ elim (Bool-cases (pings connector (called (cursor n) db))) [
      | inl p ↦ rw (e, t, p) (is_connected n ∷ cursor n ∷ [], refl, omega arith, tt)
      | inr p ↦
          subst (λ lost. Opens lost db (open_cursor connector db)) (sym (lost e t p))
            (given_up e t p)
    ]
  ]
]
  where
    n : ℕ
    n = db.connection

    gone : List Call
    gone = close n ∷ is_connected n ∷ cursor n ∷ []

    lost :
        connector db.calls (cursor n) ≡ none
        → db.in_transaction ≡ false
        → pings connector (called (cursor n) db) ≡ false
        → is_lost connector db ≡ true
    lost e t p = ground (arith, e, t, p)

    given_up :
        connector db.calls (cursor n) ≡ none
        → db.in_transaction ≡ false
        → pings connector (called (cursor n) db) ≡ false
        → Opens true db (open_cursor connector db)
    given_up e t p = elim (Option-cases (connector (gone ++ db.calls) (connect (suc n)))) [
      | inl f ↦ rw (e, t, p, f) (connect (suc n) ∷ gone, refl, omega arith, tt)
      | inr (m, f) ↦
          elim (Option-cases (connector (connect (suc n) ∷ gone ++ db.calls) (cursor (suc n)))) [
            | inl g ↦
                rw (e, t, p, f, g) (cursor (suc n) ∷ connect (suc n) ∷ gone, refl, omega arith, tt)
            | inr (k, g) ↦
                rw (e, t, p, f, g)
                  (
                    cursor (suc n) ∷ connect (suc n) ∷ gone,
                    refl,
                    omega arith,
                    (connect (suc n) ∷ gone ++ db.calls, refl),
                  )
          ]
    ]
