-- ===== src/Database/W2ui/Log.antt =====
-- What a method has written when it returns (database/mysql/w2ui.py): the writes in order, whatever the
-- server answers.
use powergslb.Base.{ℕ, ◌≡◌, refl, List, [], ◌∷◌, ◌++◌, Result, ok, err, Text}
use powergslb.Database.Program.{
  Program, returns, raises, selects, modifies, last_inserted, lift, ◌>>=◌,
}
use powergslb.Database.Statement.{Param}
use powergslb.Database.Table.Paging.Safety.{Reads}
use powergslb.Routing.Create.{Spec}

-- A write, with its parameters.
abbrev pub Write : Type 0
Write = Text × List Param

-- Where the method returns, after the writes so far and its own, they have a property with its value.
abbrev pub Writes : {A : Type 0} → (List Write → A → Type 0) → List Write → Program A → Type 0
Writes P log (returns a) = P log a
Writes P log (raises e) = Unit
Writes P log (selects operation params next) = (rows : List Spec) → Writes P log (next rows)
Writes P log (modifies operation params next) =
    (n : ℕ) → Writes P (log ++ (operation, params) ∷ []) (next n)
Writes P log (last_inserted next) = (n : ℕ) → Writes P log (next n)

module _ {A B : Type 0} (P : List Write → B → Type 0) where
  pub Writes-bind :
      (log : List Write) (p : Program A) (rest : A → Program B)
      → Writes (λ l a. Writes P l (rest a)) log p
      → Writes P log (p >>= rest)
  Writes-bind log (returns a) rest h = h
  Writes-bind log (raises e) rest h = tt
  Writes-bind log (selects o ps next) rest h = λ rows. Writes-bind log (next rows) rest (h rows)
  Writes-bind log (modifies o ps next) rest h = λ n. Writes-bind _ (next n) rest (h n)
  Writes-bind log (last_inserted next) rest h = λ n. Writes-bind log (next n) rest (h n)

  pub Writes-lift :
      (log : List Write) (r : Result A) (rest : A → Program B)
      → ((a : A) → r ≡ ok a → Writes P log (rest a))
      → Writes P log (lift r >>= rest)
  Writes-lift log (ok a) rest h = h a refl
  Writes-lift log (err e) rest h = tt

module _ {A : Type 0} (P : List Write → A → Type 0) where
  -- A method that only reads leaves the writes as they were.
  pub Writes-of_Reads :
      (log : List Write) (p : Program A) → Reads p → ((a : A) → P log a) → Writes P log p
  Writes-of_Reads log (returns a) r h = h a
  Writes-of_Reads log (raises e) r h = tt
  Writes-of_Reads log (selects o ps next) r h = λ rows. Writes-of_Reads log (next rows) (r.1 rows) h
  Writes-of_Reads log (modifies o ps next) r h = absurd r.0
  Writes-of_Reads log (last_inserted next) r h = λ n. Writes-of_Reads log (next n) (r n) h

  -- What holds whatever was written.
  pub Writes-any :
      (log : List Write) (p : Program A) → ((l : List Write) (a : A) → P l a) → Writes P log p
  Writes-any log (returns a) h = h log a
  Writes-any log (raises e) h = tt
  Writes-any log (selects o ps next) h = λ rows. Writes-any log (next rows) h
  Writes-any log (modifies o ps next) h = λ n. Writes-any _ (next n) h
  Writes-any log (last_inserted next) h = λ n. Writes-any log (next n) h

pub Writes-imp :
    {A : Type 0} (P Q : List Write → A → Type 0) (log : List Write) (p : Program A)
    → ((l : List Write) (a : A) → P l a → Q l a)
    → Writes P log p
    → Writes Q log p
Writes-imp P Q log (returns a) f h = f log a h
Writes-imp P Q log (raises e) f h = tt
Writes-imp P Q log (selects o ps next) f h = λ rows. Writes-imp P Q log (next rows) f (h rows)
Writes-imp P Q log (modifies o ps next) f h = λ n. Writes-imp P Q _ (next n) f (h n)
Writes-imp P Q log (last_inserted next) f h = λ n. Writes-imp P Q log (next n) f (h n)
