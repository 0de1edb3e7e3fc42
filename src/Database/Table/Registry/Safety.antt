-- ===== src/Database/Table/Registry/Safety.antt =====
-- Every statement of every registered table binds its parameters (database/mysql/tables.py).
use powergslb.Base.{
  ℕ, ◌≡◌, refl, ap, ==_iff, and-eq-true, List, [], ◌∷◌, Option, none, some, Text, All, length, Bool,
  true, false, ◌==◌, all,
}
use powergslb.Base.Dict.{get, get-All, text_key}
use powergslb.Base.Values.{ℤ}
use powergslb.Database.Page.{PageRequest}
use powergslb.Database.Table.{Table, users}
use powergslb.Database.Table.Marks.{IsPlain, counts, marks_from}
use powergslb.Database.Table.Paging.Safety.{RunsBound, Reads}
use powergslb.Database.Table.Reading.{get_rows}
use powergslb.Database.Table.Reading.Safety.{get_of-bound}
use powergslb.Database.Table.Registry.{
  tables, audit_table, domains_table, monitors_table, records_table, routings_table, status_table,
  types_table, users_table, views_table,
}
use powergslb.Database.Table.Search.{Python}
use powergslb.Database.Table.Statements.{IsPlainTable}
use powergslb.Database.Table.Trail.{AuditRow, record_rows}
use powergslb.Database.Table.Writing.{save, remove}
use powergslb.Database.Table.Writing.Safety.{save_of-bound, remove_of-bound, record_rows-bound}
use powergslb.Password.{Crypt}
use powergslb.Routing.Create.{Spec}
use powergslb.View.{Casing}

-- Whether a text has no `%`.
abbrev is_zero : Option ℕ → Bool
is_zero none = false
is_zero (some n) = n == 0

abbrev is_plain : Text → Bool
is_plain text = is_zero (marks_from false text)

zero_of : (o : Option ℕ) → is_zero o ≡ true → o ≡ some 0
zero_of none h = cc
zero_of (some n) h = ap some ((==_iff n 0).0 h)

is_plain-IsPlain : (text : Text) → is_plain text ≡ true → IsPlain text
is_plain-IsPlain text h = counts text (zero_of (marks_from false text) h)

all-IsPlain : (texts : List Text) → all is_plain texts ≡ true → All IsPlain texts
all-IsPlain [] h = tt
all-IsPlain (text ∷ texts) h = (
  is_plain-IsPlain text (and-eq-true (is_plain text) (all is_plain texts) h).0,
  all-IsPlain texts (and-eq-true (is_plain text) (all is_plain texts) h).1,
)

-- A table that the methods can be called on: its names are plain, and of the users' class it has three
-- columns.
abbrev IsServed : Table → Type 0
IsServed table = IsPlainTable table × (table.kind ≡ users → length table.columns ≡ 3)

no_aliases :
    (table : Table)
    → all is_plain (table.name ∷ table.key ∷ []) ≡ true
    → all is_plain table.fields ≡ true
    → all is_plain table.columns ≡ true
    → All (λ (p : Text × Text). IsPlain p.1) table.aliases
    → IsPlainTable table
no_aliases table names fields columns aliases =
    let there = all-IsPlain (table.name ∷ table.key ∷ []) names in
    record {
      plain_name = there.0;
      plain_key = there.1.0;
      plain_fields = all-IsPlain table.fields fields;
      plain_columns = all-IsPlain table.columns columns;
      plain_aliases = aliases;
    }

tables-IsServed : All (λ (p : Text × Table). IsServed p.1) tables
tables-IsServed = (
  (no_aliases audit_table refl refl refl tt, λ e. cc),
  (
    (no_aliases domains_table refl refl refl tt, λ e. cc),
    (
      (no_aliases monitors_table refl refl refl tt, λ e. cc),
      (
        (no_aliases records_table refl refl refl tt, λ e. cc),
        (
          (no_aliases routings_table refl refl refl tt, λ e. cc),
          (
            (no_aliases status_table refl refl refl tt, λ e. cc),
            (
              (no_aliases types_table refl refl refl (counts _ refl, tt), λ e. cc),
              (
                (no_aliases users_table refl refl refl tt, λ e. refl),
                ((no_aliases views_table refl refl refl tt, λ e. cc), tt),
              ),
            ),
          ),
        ),
      ),
    ),
  ),
)

-- Of a table that a token names, every statement that reads, writes or deletes has one placeholder for each
-- value it binds, and no other `%`, and reading writes nothing: whatever key, page, record and ids are
-- posted, and whatever the server answers.
pub tables-RunsBound :
    (python : Python) (casing : Casing) (library : Crypt) (data_token : Text) (table : Table)
    (recid : ℤ) (page : Option PageRequest) (down_ids : List ℕ) (fields : Spec) (ids : List ℤ)
    → get data_token tables ≡ some table
    → Reads (get_rows python table recid page down_ids)
      × (RunsBound (save python casing library table recid fields) × RunsBound (remove table ids))
tables-RunsBound python casing library data_token table recid page down_ids fields ids there =
    let (t, accounts) = get-All IsServed data_token tables tables-IsServed there in
    (
      get_of-bound table t python table.kind recid page down_ids,
      (
        save_of-bound python casing library table table.kind recid fields t accounts,
        remove_of-bound table t table.kind ids,
      ),
    )

-- The audit rows that a write adds are bound as well.
record_rows-RunsBound : (rows : List AuditRow) → RunsBound (record_rows audit_table rows)
record_rows-RunsBound rows =
    record_rows-bound audit_table (no_aliases audit_table refl refl refl tt) rows refl
