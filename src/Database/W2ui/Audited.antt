-- ===== src/Database/W2ui/Audited.antt =====
-- A deletion that takes effect is audited in its transaction (database/mysql/w2ui.py).
use powergslb.Base.{
  ℕ, zero, suc, ◌≡◌, refl, ap, ◌⊎◌, inl, inr, List, [], ◌∷◌, ◌++◌, map, none, some, Text, codes,
  Result, ok, err, Error, arith, Result-cases, length,
}
use powergslb.Base.Values.{ℤ, int, pos, Value}
use powergslb.Database.Program.{returns, raises, ◌>>=◌}
use powergslb.Database.Statement.{plain}
use powergslb.Database.Table.{
  Table, Kind, base, audit, records, status, users, delete_of, insert_of,
}
use powergslb.Database.Table.Keys.{recids, length-recids}
use powergslb.Database.Table.Reading.{get_rows}
use powergslb.Database.Table.Reading.Safety.{get_of-bound}
use powergslb.Database.Table.Registry.{audit_table}
use powergslb.Database.Table.Search.{Python}
use powergslb.Database.Table.Statements.{IsPlainTable}
use powergslb.Database.Table.Trail.{AuditRow, all_values, record_rows}
use powergslb.Database.Table.Writing.{remove_of, base_remove}
use powergslb.Database.W2ui.{
  UserContext, record_json, audit_row, deleted_rows, audit_deletion, delete_block, ids_page,
}
use powergslb.Database.W2ui.Log.{
  Write, Writes, Writes-bind, Writes-lift, Writes-imp, Writes-of_Reads,
}
use powergslb.Password.{Crypt}
use powergslb.Routing.Create.{Spec}
use powergslb.View.{Casing}

module _ (python : Python) (casing : Casing) (library : Crypt) (dumps : Spec → Result Text) where
  module _ (data_token : Text) (context : UserContext) where
    -- The audit row of a deleted row: the row as it was read, and nothing after it.
    abbrev pub trace_of : ℤ → Text → AuditRow
    trace_of key text = record {
      user = context.user;
      client_ip = context.client_ip;
      action = codes "delete";
      data_token = data_token;
      record_id = key;
      record_before = some text;
      record_after = none;
    }

    -- The audit rows of keys and the rows that have them.
    abbrev pub Traces : List ℤ → List Spec → List AuditRow → Type 0
    Traces [] [] [] = Unit
    Traces (key ∷ keys) (row ∷ rows) (trace ∷ traces) =
        ((text : Text) × (dumps row ≡ ok text) × (trace ≡ trace_of key text))
        × Traces keys rows traces
    Traces keys rows traces = ⊥

    pub audit_row-deleted :
        (key : ℤ) (row : Spec) {text : Text}
        → dumps row ≡ ok text
        → audit_row python casing library dumps
            (codes "delete")
            data_token
            context
            key
            (some row)
            none
          ≡ returns (trace_of key text)
    unfolding audit_row record_json
    audit_row-deleted key row h = rw h refl

    pub audit_row-failed :
        (key : ℤ) (row : Spec) {e : Error}
        → dumps row ≡ err e
        → audit_row python casing library dumps
            (codes "delete")
            data_token
            context
            key
            (some row)
            none
          ≡ raises e
    unfolding audit_row record_json
    audit_row-failed key row h = rw h refl

    deleted_rows-Traces :
        (log : List Write) (keys : List ℤ) (rows : List Spec)
        → length keys ≡ length rows
        → Writes
            (λ l traces. (l ≡ log) × Traces keys rows traces)
            log
            (deleted_rows python casing library dumps data_token context keys rows)
    unfolding deleted_rows
    deleted_rows-Traces log [] [] h = (refl, tt)
    deleted_rows-Traces log [] (row ∷ rows) h = cc
    deleted_rows-Traces log (key ∷ keys) [] h = cc
    deleted_rows-Traces log (key ∷ keys) (row ∷ rows) h = elim (Result-cases (dumps row)) [
      | inl (text, e) ↦ rw (audit_row-deleted key row e) (
          Writes-bind _ log (deleted_rows python casing library dumps data_token context keys rows)
            _
            (Writes-imp _ _ log
              (deleted_rows python casing library dumps data_token context keys rows)
              (λ l traces t. (t.0, ((text, e, refl), t.1)))
              (deleted_rows-Traces log keys rows (omega arith))))
      | inr (f, e) ↦ rw (audit_row-failed key row e) tt
    ]

  module _ (table : Table) (data_token : Text) (context : UserContext) where
    -- Nothing was deleted; or the DELETE of some keys was run, and then the INSERT of one audit row for each
    -- of the keys, with the row that was read under it before.
    abbrev pub DeletionIsAudited : List Write → ℕ → Type 0
    DeletionIsAudited log deleted =
        (deleted ≡ 0)
        ⊎ ((keys : List ℤ) × (rows : List Spec) × (traces : List AuditRow) × (recids rows ≡ ok keys)
            × Traces data_token context keys rows traces
            × (log
                ≡ (delete_of table (length keys), map (λ key. plain (int key)) keys)
                  ∷ (insert_of audit_table (length traces), all_values traces)
                  ∷ []))

    -- The INSERT of the audit rows.
    recorded :
        (key : ℤ) (keys : List ℤ) (rows : List Spec) (n : ℕ) (traces : List AuditRow)
        (log : List Write)
        → recids rows ≡ ok (key ∷ keys)
        → log
          ≡ (delete_of table (length (key ∷ keys)), map (λ key. plain (int key)) (key ∷ keys)) ∷ []
        → Traces data_token context (key ∷ keys) rows traces
        → Writes DeletionIsAudited log (record_rows audit_table traces >>= λ m. returns (suc n))
    unfolding record_rows
    recorded key keys [] n traces log there e t = absurd t
    recorded key keys (row ∷ rows) n [] log there e t = absurd t
    recorded key keys (row ∷ rows) n (trace ∷ traces) log there e t = λ m. inr (
      key ∷ keys,
      row ∷ rows,
      trace ∷ traces,
      there,
      t,
      ap
          (λ l.
            l
            ++ (insert_of audit_table (length (trace ∷ traces)), all_values (trace ∷ traces)) ∷ [])
          e,
    )

    audit_deletion-Audited :
        (key : ℤ) (keys : List ℤ) (rows : List Spec) (n : ℕ)
        → recids rows ≡ ok (key ∷ keys)
        → Writes DeletionIsAudited
            ((delete_of table (length (key ∷ keys)), map (λ key. plain (int key)) (key ∷ keys))
              ∷ [])
            (audit_deletion python casing library dumps data_token context (key ∷ keys) rows n)
    unfolding audit_deletion
    audit_deletion-Audited key keys rows zero there = inl refl
    audit_deletion-Audited key keys rows (suc n) there =
        Writes-bind DeletionIsAudited _
          (deleted_rows python casing library dumps data_token context (key ∷ keys) rows) _
          (Writes-imp _ _ _
            (deleted_rows python casing library dumps data_token context (key ∷ keys) rows)
            (λ l traces t. recorded key keys rows n traces l there t.0 t.1)
            (deleted_rows-Traces data_token context _ (key ∷ keys) rows (length-recids rows there)))

    base_remove-Audited :
        (keys : List ℤ) (rows : List Spec)
        → recids rows ≡ ok keys
        → Writes DeletionIsAudited [] (
            base_remove table keys
            >>= audit_deletion python casing library dumps data_token context keys rows)
    unfolding base_remove audit_deletion
    base_remove-Audited [] rows there = inl refl
    base_remove-Audited (key ∷ keys) rows there = λ n. audit_deletion-Audited key keys rows n there

    remove_of-Audited :
        (kind : Kind) (keys : List ℤ) (rows : List Spec)
        → recids rows ≡ ok keys
        → Writes DeletionIsAudited [] (
            remove_of kind table keys
            >>= audit_deletion python casing library dumps data_token context keys rows)
    unfolding remove_of
    remove_of-Audited audit keys rows there = tt
    remove_of-Audited status keys rows there = tt
    remove_of-Audited base keys rows there = base_remove-Audited keys rows there
    remove_of-Audited records keys rows there = base_remove-Audited keys rows there
    remove_of-Audited users keys rows there = base_remove-Audited keys rows there

    -- A deletion that returns has deleted nothing, or has run exactly two writes: the DELETE of the keys of
    -- rows that were read in the same block, and then one INSERT of an audit row for each of these keys, in
    -- their order, with the user, the token and the JSON of the row as it was read. This holds whatever the
    -- server answers, over a table whose names have no `%`.
    pub delete_block-Audited :
        (ids : List Value)
        → IsPlainTable table
        → Writes DeletionIsAudited []
            (delete_block python casing library dumps table data_token ids context)
    unfolding delete_block
    delete_block-Audited ids t =
        Writes-bind DeletionIsAudited [] (get_rows python table (pos 0) (some (ids_page ids)) []) _
          (Writes-of_Reads _ [] (get_rows python table (pos 0) (some (ids_page ids)) [])
            (get_of-bound table t python table.kind (pos 0) (some (ids_page ids)) [])
            (λ found.
              Writes-lift DeletionIsAudited [] (recids found.0) _
                (λ keys e. remove_of-Audited table.kind keys found.0 e)))
