-- ===== src/Database/Table/Statements.antt =====
-- The placeholders of the tables' own statements (database/mysql/tables.py).
use powergslb.Base.{
  ℕ, ◌+◌, ◌*◌, refl, List, Text, codes, text_eq, All, Bool-cases, Option-cases, inl, inr, length,
  arith,
}
use powergslb.Base.Dict.{get, get-All, text_key}
use powergslb.Database.Table.{
  Table, Kind, base, audit, records, status, users, comma, quoted, column, base_projection,
  base_select, assignment, projection, records_select, select_of, select_one, insert_of, update_of,
  delete_of,
}
use powergslb.Database.Table.Marks.{
  HasMarks, IsPlain, ◌⊕◌, as_many, counts, IsPlain-quoted, HasMarks-placeholders, HasMarks-repeat,
  HasMarks-join-map,
}

-- The names of a table have no `%`.
pub record IsPlainTable (table : Table) : Type 0 where
  pub plain_name : IsPlain table.name
  pub plain_key : IsPlain table.key
  pub plain_fields : All IsPlain table.fields
  pub plain_columns : All IsPlain table.columns
  pub plain_aliases : All (λ (p : Text × Text). IsPlain p.1) table.aliases

module _ (table : Table) (t : IsPlainTable table) where
  column-IsPlain : (name : Text) → IsPlain name → IsPlain (column table name)
  unfolding column
  column-IsPlain name p = elim (Bool-cases (text_eq name (codes "recid"))) [
    | inl e ↦ rw e t.plain_key
    | inr e ↦ elim (Option-cases (get name table.aliases)) [
      | inl f ↦ rw (e, f) p
      | inr (alias, f) ↦ rw (e, f) (get-All IsPlain name table.aliases t.plain_aliases f)
    ]
  ]

  base_projection-IsPlain : (name : Text) → IsPlain name → IsPlain (base_projection table name)
  unfolding base_projection
  base_projection-IsPlain name p = elim (Bool-cases (text_eq (column table name) name)) [
    | inl e ↦ rw e (IsPlain-quoted p)
    | inr e ↦ rw e (
        as_many
          (IsPlain-quoted (column-IsPlain name p) ⊕ counts (codes " AS ") refl ⊕ IsPlain-quoted p)
          refl)
  ]

  projection-IsPlain :
      (kind : Kind) (name : Text) → IsPlain name → IsPlain (projection kind table name)
  unfolding projection
  projection-IsPlain users name p = elim (Bool-cases (text_eq name (codes "password"))) [
    | inl e ↦ rw e (counts (codes "'*****' AS `password`") refl)
    | inr e ↦ rw e (base_projection-IsPlain name p)
  ]
  projection-IsPlain base name p = base_projection-IsPlain name p
  projection-IsPlain audit name p = base_projection-IsPlain name p
  projection-IsPlain records name p = base_projection-IsPlain name p
  projection-IsPlain status name p = base_projection-IsPlain name p

  base_select-IsPlain : IsPlain (base_select table)
  unfolding base_select
  base_select-IsPlain =
      as_many
        (counts (codes "SELECT ") refl
          ⊕ HasMarks-join-map 0 comma (projection table.kind table) table.fields (counts comma refl)
              (projection-IsPlain table.kind) t.plain_fields
          ⊕ counts (codes " FROM ") refl
          ⊕ IsPlain-quoted t.plain_name)
        (omega arith)

  pub select_of-IsPlain : (kind : Kind) → IsPlain (select_of kind table)
  unfolding select_of
  select_of-IsPlain records = counts records_select refl
  select_of-IsPlain status = counts records_select refl
  select_of-IsPlain base = base_select-IsPlain
  select_of-IsPlain audit = base_select-IsPlain
  select_of-IsPlain users = base_select-IsPlain

  pub HasMarks-select_one : HasMarks (select_one table) 1
  unfolding select_one
  HasMarks-select_one =
      as_many
        (select_of-IsPlain table.kind
          ⊕ counts (codes " WHERE ") refl
          ⊕ IsPlain-quoted t.plain_name
          ⊕ counts (codes ".") refl
          ⊕ IsPlain-quoted t.plain_key
          ⊕ counts (codes " = %s") refl)
        refl

  pub HasMarks-insert_of :
      (count : ℕ) → HasMarks (insert_of table count) (length table.columns * count)
  unfolding insert_of
  HasMarks-insert_of count =
      as_many
        (counts (codes "INSERT INTO ") refl
          ⊕ IsPlain-quoted t.plain_name
          ⊕ counts (codes " (") refl
          ⊕ HasMarks-join-map 0 comma (λ name. quoted (column table name)) table.columns
              (counts comma refl) (λ name p. IsPlain-quoted (column-IsPlain name p)) t.plain_columns
          ⊕ counts (codes ") VALUES ") refl
          ⊕ HasMarks-repeat count (length table.columns) _ (
              as_many
                (counts (codes "(") refl
                  ⊕ HasMarks-placeholders (length table.columns)
                  ⊕ counts (codes ")") refl)
                (omega arith)))
        (omega arith)

  pub HasMarks-update_of :
      (columns : List Text)
      → All IsPlain columns
      → HasMarks (update_of table columns) (length columns + 1)
  unfolding update_of assignment
  HasMarks-update_of columns p =
      as_many
        (counts (codes "UPDATE ") refl
          ⊕ IsPlain-quoted t.plain_name
          ⊕ counts (codes " SET ") refl
          ⊕ HasMarks-join-map 1 comma (assignment table) columns (counts comma refl)
              (λ name q.
                as_many (IsPlain-quoted (column-IsPlain name q) ⊕ counts (codes " = %s") refl) refl)
              p
          ⊕ counts (codes " WHERE ") refl
          ⊕ IsPlain-quoted t.plain_key
          ⊕ counts (codes " = %s") refl)
        (omega arith)

  pub HasMarks-delete_of : (count : ℕ) → HasMarks (delete_of table count) count
  unfolding delete_of
  HasMarks-delete_of count =
      as_many
        (counts (codes "DELETE FROM ") refl
          ⊕ IsPlain-quoted t.plain_name
          ⊕ counts (codes " WHERE ") refl
          ⊕ IsPlain-quoted t.plain_key
          ⊕ counts (codes " IN (") refl
          ⊕ HasMarks-placeholders count
          ⊕ counts (codes ")") refl)
        (omega arith)
