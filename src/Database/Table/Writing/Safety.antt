-- ===== src/Database/Table/Writing/Safety.antt =====
-- Every statement that writes a table binds its parameters (database/mysql/tables.py), and no posted text
-- becomes part of it.
use powergslb.Base.{
  ℕ, suc, ◌+◌, ◌*◌, ◌≡◌, refl, ap, List, [], ◌∷◌, Text, codes, Bool-cases, inl, inr, length,
  length-append, length-map, arith, Result, ok, err,
}
use powergslb.Base.Dict.{get, text_key}
use powergslb.Base.Values.{ℤ, Value, int}
use powergslb.Database.Program.{Program, Runs, Runs-bind, returns, lift, ◌>>=◌}
use powergslb.Database.Statement.{Param, plain}
use powergslb.Database.Table.{Table, Kind, base, audit, records, status, users}
use powergslb.Database.Table.Accounts.{users_save, users_write, hash_param, is_mask}
use powergslb.Database.Table.Keys.{item}
use powergslb.Database.Table.Marks.{IsBound, as_many, counts}
use powergslb.Database.Table.Paging.Safety.{RunsBound, Bounded-lifted}
use powergslb.Database.Table.Reading.{is_given}
use powergslb.Database.Table.Search.{Python}
use powergslb.Database.Table.Statements.{
  IsPlainTable, HasMarks-insert_of, HasMarks-update_of, HasMarks-delete_of,
}
use powergslb.Database.Table.Trail.{AuditRow, audit_values, all_values, record_rows}
use powergslb.Database.Table.Writing.{
  bound_values, with_defaults, base_write, base_save, rrset_upsert, record_update, record_insert,
  record_write, or_zero, disabled_of, records_save, base_remove, remove_of, save_of,
}
use powergslb.Password.{Crypt}
use powergslb.Routing.Create.{Spec}
use powergslb.View.{Casing}

-- The values bound for columns are as many as the columns.
abbrev AsMany : List Text → List Param → Type 0
AsMany names params = length params ≡ length names

bind_value :
    (name : Text) (names : List Text) (r : Result Value) (p : Program (List Param))
    → Runs IsBound IsBound (AsMany names) p
    → Runs IsBound IsBound
        (AsMany (name ∷ names))
        (lift r >>= λ value. p >>= λ params. returns (plain value ∷ params))
bind_value name names (err e) p h = tt
bind_value name names (ok value) p h =
    Runs-bind IsBound IsBound (AsMany names) (AsMany (name ∷ names)) p _ h (λ params e. ap suc e)

bound_values-AsMany :
    (names : List Text) (fields : Spec)
    → Runs IsBound IsBound (AsMany names) (bound_values names fields)
unfolding bound_values
bound_values-AsMany [] fields = refl
bound_values-AsMany (name ∷ names) fields =
    bind_value name names (item name fields) (bound_values names fields)
      (bound_values-AsMany names fields)

module _ (table : Table) (t : IsPlainTable table) where
  base_write-bound :
      (save_recid : ℤ) (params : List Param)
      → length params ≡ length table.columns
      → RunsBound (base_write table save_recid params)
  unfolding base_write
  base_write-bound save_recid params e = elim (Bool-cases (is_given save_recid)) [
    | inl f ↦ rw f (
      as_many (HasMarks-update_of table t table.columns t.plain_columns)
          (omega (arith, e, length-append params (plain (int save_recid) ∷ []))),
      λ n. tt,
    )
    | inr f ↦ rw f (as_many (HasMarks-insert_of table t 1) (omega (arith, e)), λ n. tt)
  ]

  base_remove-bound : (ids : List ℤ) → RunsBound (base_remove table ids)
  unfolding base_remove
  base_remove-bound [] = tt
  base_remove-bound (id ∷ ids) = (
    as_many (HasMarks-delete_of table t (length (id ∷ ids)))
        (omega (arith, length-map (λ id. plain (int id)) ids)),
    λ n. tt,
  )

  pub remove_of-bound : (kind : Kind) (ids : List ℤ) → RunsBound (remove_of kind table ids)
  unfolding remove_of
  remove_of-bound audit ids = tt
  remove_of-bound status ids = tt
  remove_of-bound base ids = base_remove-bound ids
  remove_of-bound records ids = base_remove-bound ids
  remove_of-bound users ids = base_remove-bound ids

  length-all_values : (rows : List AuditRow) → length (all_values rows) ≡ 7 * length rows
  length-all_values [] = omega arith
  length-all_values (row ∷ rows) =
      omega (arith, length-all_values rows, length-append (audit_values row) (all_values rows))

  pub record_rows-bound :
      (rows : List AuditRow) → length table.columns ≡ 7 → RunsBound (record_rows table rows)
  unfolding record_rows
  record_rows-bound [] e = tt
  record_rows-bound (row ∷ rows) e = (
    as_many (HasMarks-insert_of table t (length (row ∷ rows)))
        (rw e (omega (arith, length-all_values (row ∷ rows)))),
    λ n. tt,
  )

  base_save-bound : (save_recid : ℤ) (fields : Spec) → RunsBound (base_save table save_recid fields)
  unfolding base_save
  base_save-bound save_recid fields =
      Runs-bind IsBound IsBound (AsMany table.columns) (λ n. Unit)
        (bound_values table.columns (with_defaults table.defaults fields)) _
        (bound_values-AsMany table.columns (with_defaults table.defaults fields))
        (base_write-bound save_recid)

record_write-bound :
    (save_recid : ℤ) (affected : ℕ) (a b c d e : Param)
    → RunsBound
        (record_write save_recid (a ∷ b ∷ c ∷ d ∷ e ∷ []) >>= λ more. returns (affected + more))
unfolding record_write
record_write-bound save_recid affected a b c d e = elim (Bool-cases (is_given save_recid)) [
  | inl f ↦ rw f (counts record_update refl, λ n. tt)
  | inr f ↦ rw f (counts record_insert refl, λ n. tt)
]

records_save-bound :
    (python : Python) (casing : Casing) (save_recid : ℤ) (fields : Spec)
    → RunsBound (records_save python casing save_recid fields)
unfolding records_save
records_save-bound python casing save_recid fields =
    Bounded-lifted IsBound (item (codes "domain") fields) _ (λ domain.
      Bounded-lifted IsBound (item (codes "name") fields) _ (λ name.
        Bounded-lifted IsBound (item (codes "name_type") fields) _ (λ name_type.
          Bounded-lifted IsBound (item (codes "ttl") fields) _ (λ ttl.
            Bounded-lifted IsBound (item (codes "policy") fields) _ (λ policy.
              Bounded-lifted IsBound (item (codes "content") fields) _ (λ content.
                Bounded-lifted IsBound (item (codes "monitor") fields) _ (λ monitor.
                  Bounded-lifted IsBound (item (codes "view") fields) _ (λ view. (
                    counts rrset_upsert refl,
                    λ affected.
                        record_write-bound save_recid affected (plain content) (plain monitor)
                          (plain view) (plain (int (disabled_of python casing fields)))
                          (plain (or_zero (get (codes "weight") fields))),
                  )))))))))

module _ (table : Table) (t : IsPlainTable table) (library : Crypt) where
  users_write-bound :
      (save_recid : ℤ) (user name password : Value)
      → length table.columns ≡ 3
      → RunsBound (users_write library table save_recid user name password)
  unfolding users_write
  users_write-bound save_recid user name password e = elim (Bool-cases (is_given save_recid)) [
    | inr f ↦ rw f (
        Bounded-lifted IsBound (hash_param library password) _
          (λ hash. (as_many (HasMarks-insert_of table t 1) (omega (arith, e)), λ n. tt)))
    | inl f ↦ elim (Bool-cases (is_mask password)) [
      | inl g ↦
          rw (f, g)
            (
              HasMarks-update_of table t (codes "user" ∷ codes "name" ∷ [])
                  (counts _ refl, (counts _ refl, tt)),
              λ n. tt,
            )
      | inr g ↦
          rw (f, g)
            (Bounded-lifted IsBound (hash_param library password) _ (λ hash. (
              as_many (HasMarks-update_of table t table.columns t.plain_columns) (omega (arith, e)),
              λ n. tt,
            )))
    ]
  ]

  users_save-bound :
      (save_recid : ℤ) (fields : Spec)
      → length table.columns ≡ 3
      → RunsBound (users_save library table save_recid fields)
  unfolding users_save
  users_save-bound save_recid fields e =
      Bounded-lifted IsBound (item (codes "user") fields) _ (λ user.
        Bounded-lifted IsBound (item (codes "name") fields) _ (λ name.
          Bounded-lifted IsBound (item (codes "password") fields) _
            (λ password. users_write-bound save_recid user name password e)))

pub save_of-bound :
    (python : Python) (casing : Casing) (library : Crypt) (table : Table) (kind : Kind)
    (save_recid : ℤ) (fields : Spec)
    → IsPlainTable table
    → (kind ≡ users → length table.columns ≡ 3)
    → RunsBound (save_of python casing library kind table save_recid fields)
unfolding save_of
save_of-bound python casing library table base save_recid fields t h =
    base_save-bound table t save_recid fields
save_of-bound python casing library table audit save_recid fields t h = tt
save_of-bound python casing library table records save_recid fields t h =
    records_save-bound python casing save_recid fields
save_of-bound python casing library table status save_recid fields t h = tt
save_of-bound python casing library table users save_recid fields t h =
    users_save-bound table t library save_recid fields (h refl)
