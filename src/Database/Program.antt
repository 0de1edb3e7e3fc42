-- ===== src/Database/Program.antt =====
-- What a table's method does with the executor it is passed (database/mysql/tables.py, `Selector` and
-- `Executor`): the statements it runs, each with what follows for every answer, up to its return or its
-- exception. No method catches what a statement raises, so a statement that raises ends it.
use powergslb.Base.{
  ℕ, ◌≡◌, refl, sym, ap, ◌∙◌, Bool, true, false, List, Result, ok, err, Error, Text,
}
use powergslb.Database.Statement.{Param}
use powergslb.Routing.Create.{Spec}

-- The calls of `Executor`: a read, a write, and the key that the latest statement generated.
pub data Program (A : Type 0) : Type 0 where
  returns : A → Program A
  raises : Error → Program A
  selects : Text → List Param → (List Spec → Program A) → Program A
  modifies : Text → List Param → (ℕ → Program A) → Program A
  last_inserted : (ℕ → Program A) → Program A

module _ {A B : Type 0} where
  infixl 5 ◌>>=◌
  abbrev pub ◌>>=◌ : (call : Program A) (rest : A → Program B) → Program B
  returns a >>= rest = rest a
  raises e >>= rest = raises e
  selects operation params next >>= rest = selects operation params (λ rows. next rows >>= rest)
  modifies operation params next >>= rest = modifies operation params (λ n. next n >>= rest)
  last_inserted next >>= rest = last_inserted (λ n. next n >>= rest)

-- What raises or returns without a statement.
abbrev pub lift : {A : Type 0} → Result A → Program A
lift (ok a) = returns a
lift (err e) = raises e

-- `db.select(...)`, `db.modify(...)` and `db.last_insert_id()`
abbrev pub select : Text → List Param → Program (List Spec)
select operation params = selects operation params returns

abbrev pub modify : Text → List Param → Program ℕ
modify operation params = modifies operation params returns

abbrev pub last_insert_id : Program ℕ
last_insert_id = last_inserted returns

-- An executor: what it answers to a statement, and its state after it.
pub record Executor (S : Type 0) : Type 0 where
  pub on_select : Text → List Param → S → Result (List Spec) × S
  pub on_modify : Text → List Param → S → Result ℕ × S
  pub last_id : S → ℕ

-- What follows an answer: an exception ends the method.
abbrev pub answered : {A B S : Type 0} → (A → S → Result B × S) → Result A × S → Result B × S
answered next (ok a, s) = next a s
answered next (err e, s) = (err e, s)

answered-then :
    {A B C S : Type 0} (reply : Result A × S) (first : A → S → Result B × S)
    (second : B → S → Result C × S) (both : A → S → Result C × S)
    → ((a : A) (s : S) → both a s ≡ answered second (first a s))
    → answered both reply ≡ answered second (answered first reply)
answered-then (ok a, s) first second both h = h a s
answered-then (err e, s) first second both h = refl

module _ {S : Type 0} (db : Executor S) where
  -- The method, run on an executor.
  abbrev pub run : {A : Type 0} → Program A → S → Result A × S
  run (returns a) s = (ok a, s)
  run (raises e) s = (err e, s)
  run (selects operation params next) s =
      answered (λ rows after. run (next rows) after) (db.on_select operation params s)
  run (modifies operation params next) s =
      answered (λ n after. run (next n) after) (db.on_modify operation params s)
  run (last_inserted next) s = run (next (db.last_id s)) s

  -- A statement that was answered.
  pub run-selects :
      {A : Type 0} (operation : Text) (params : List Param) (next : List Spec → Program A)
      (s after : S) (rows : List Spec)
      → db.on_select operation params s ≡ (ok rows, after)
      → run (selects operation params next) s ≡ run (next rows) after
  run-selects operation params next s after rows h =
      ap (answered (λ rows after. run (next rows) after)) h

  pub run-modifies :
      {A : Type 0} (operation : Text) (params : List Param) (next : ℕ → Program A) (s after : S)
      (n : ℕ)
      → db.on_modify operation params s ≡ (ok n, after)
      → run (modifies operation params next) s ≡ run (next n) after
  run-modifies operation params next s after n h = ap (answered (λ n after. run (next n) after)) h

  -- A method and what follows it.
  pub run-bind :
      {A B : Type 0} (p : Program A) (rest : A → Program B) (s : S)
      → run (p >>= rest) s ≡ answered (λ a after. run (rest a) after) (run p s)
  run-bind (returns a) rest s = refl
  run-bind (raises e) rest s = refl
  run-bind (selects o ps next) rest s =
      answered-then (db.on_select o ps s) _ _ _ (λ rows after. run-bind (next rows) rest after)
  run-bind (modifies o ps next) rest s =
      answered-then (db.on_modify o ps s) _ _ _ (λ n after. run-bind (next n) rest after)
  run-bind (last_inserted next) rest s = run-bind (next (db.last_id s)) rest s

-- Each statement that the method can run, whatever the answers, and each value that it can return.
abbrev pub Runs :
    {A : Type 0} (P Q : Text → List Param → Type 0) (R : A → Type 0) → Program A → Type 0
Runs P Q R (returns a) = R a
Runs P Q R (raises e) = Unit
Runs P Q R (selects operation params next) =
    P operation params × ((rows : List Spec) → Runs P Q R (next rows))
Runs P Q R (modifies operation params next) = Q operation params × ((n : ℕ) → Runs P Q R (next n))
Runs P Q R (last_inserted next) = (n : ℕ) → Runs P Q R (next n)

module _ {A B : Type 0} (P Q : Text → List Param → Type 0) (R : A → Type 0) (T : B → Type 0) where
  pub Runs-bind :
      (p : Program A) (rest : A → Program B)
      → Runs P Q R p
      → ((a : A) → R a → Runs P Q T (rest a))
      → Runs P Q T (p >>= rest)
  Runs-bind (returns a) rest h k = k a h
  Runs-bind (raises e) rest h k = tt
  Runs-bind (selects o ps next) rest h k = (h.0, λ rows. Runs-bind (next rows) rest (h.1 rows) k)
  Runs-bind (modifies o ps next) rest h k = (h.0, λ n. Runs-bind (next n) rest (h.1 n) k)
  Runs-bind (last_inserted next) rest h k = λ n. Runs-bind (next n) rest (h n) k

abbrev is_error : {B S : Type 0} → Result B × S → Bool
is_error (ok b, s) = false
is_error (err e, s) = true

pub raised-ne-returned :
    {B S : Type 0} {e : Error} {s : S} {b : B} {t : S}
    → ◌≡◌ {A = Result B × S} (err e, s) (ok b, t)
    → ⊥
raised-ne-returned h = clash (ap is_error h)
  where
    clash : true ≡ false → ⊥
    clash h = cc

pub pair_eq :
    {A S : Type 0} {a b : A} {s t : S}
    → ◌≡◌ {A = Result A × S} (ok a, s) (ok b, t)
    → (a ≡ b) × (s ≡ t)
pair_eq h = (cc, cc)

-- A step that returned was reached.
pub answered-eq-ok :
    {A B S : Type 0} (next : A → S → Result B × S) (reply : Result A × S) {b : B} {last : S}
    → answered next reply ≡ (ok b, last)
    → (a : A) × (middle : S) × (reply ≡ (ok a, middle)) × (next a middle ≡ (ok b, last))
answered-eq-ok next (ok a, s) h = (a, s, refl, h)
answered-eq-ok next (err e, s) h = absurd (raised-ne-returned h)

module _ {S : Type 0} (db : Executor S) where
  -- A chain that returns: its first method returned, and the rest from there.
  pub run-bind-ok :
      {A B : Type 0} (p : Program A) (rest : A → Program B) (s : S) {b : B} {last : S}
      → run db (p >>= rest) s ≡ (ok b, last)
      → (a : A) × (middle : S) × (run db p s ≡ (ok a, middle))
        × (run db (rest a) middle ≡ (ok b, last))
  run-bind-ok p rest s h =
      answered-eq-ok (λ a after. run db (rest a) after) (run db p s)
        (sym (run-bind db p rest s) ∙ h)

  -- What needs no statement.
  pub run-lift-ok :
      {A B : Type 0} (r : Result A) (rest : A → Program B) (s : S) {b : B} {last : S}
      → run db (lift r >>= rest) s ≡ (ok b, last)
      → (a : A) × (r ≡ ok a) × (run db (rest a) s ≡ (ok b, last))
  run-lift-ok (ok a) rest s h = (a, refl, h)
  run-lift-ok (err e) rest s h = absurd (raised-ne-returned h)
