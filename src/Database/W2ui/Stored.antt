-- ===== src/Database/W2ui/Stored.antt =====
-- A save that returns, run on the server (database/mysql/w2ui.py): what it read, wrote and recorded.
use powergslb.Base.{
  ℕ, zero, suc, ◌≡◌, ◌≢◌, refl, sym, subst, ap, ◌∙◌, ◌⊎◌, inl, inr, Bool, true, false, Bool-cases,
  List, [], ◌∷◌, Option, none, some, Text, codes, Result, ok, err, Result-cases, runtime_error,
  ◌==◌, ==_iff, if◌then◌else◌,
}
use powergslb.Base.Values.{ℤ, pos, Value}
use powergslb.Database.Program.{
  Executor, run, lift, returns, raises, run-bind-ok, run-lift-ok, answered-eq-ok,
  raised-ne-returned, pair_eq,
}
use powergslb.Database.Table.{Table, mem, insert_of}
use powergslb.Database.Table.Keys.{item}
use powergslb.Database.Table.Paging.{Found}
use powergslb.Database.Table.Reading.{is_given, get_rows}
use powergslb.Database.Table.Registry.{audit_table}
use powergslb.Database.Table.Search.{Python, int_value}
use powergslb.Database.Table.Trail.{AuditRow, all_values, record_rows}
use powergslb.Database.Table.Writing.{save, written_recid}
use powergslb.Database.W2ui.{
  UserContext, audit_stored, audit_save, save_block, read_row, read_before, record_json, audit_row,
  first_row,
}
use powergslb.Database.W2ui.Saved.{JsonOf, trace_of_save}
use powergslb.Password.{Crypt}
use powergslb.Routing.Create.{Spec}
use powergslb.View.{Casing}

-- The first of the rows, or nothing.
abbrev pub IsFirst : List Spec → Option Spec → Type 0
IsFirst [] row = row ≡ none
IsFirst (first ∷ rows) row = row ≡ some first

module _ (python : Python) (casing : Casing) (library : Crypt) (dumps : Spec → Result Text) where
  module _ (table : Table) {S : Type 0} (db : Executor S) where
    -- The row of a key was read, from one state to another.
    abbrev pub ReadsRow : ℤ → S → Option Spec → S → Type 0
    ReadsRow recid s row after =
        (found : Found) × (run db (get_rows python table recid none []) s ≡ (ok found, after))
        × IsFirst found.0 row

    -- The state before a save: nothing where no key is given, else the row of the key.
    abbrev pub ReadsBefore : ℤ → S → Option Spec → S → Type 0
    ReadsBefore save_recid s before after =
        ((is_given save_recid ≡ false) × (before ≡ none) × (after ≡ s))
        ⊎ ((is_given save_recid ≡ true) × ReadsRow save_recid s before after)

    -- The key of the row that was written: the posted one where the table's columns have it, else the one that
    -- is given, else the one that the server generated.
    abbrev pub IsWrittenKey : ℤ → Spec → S → ℤ → Type 0
    IsWrittenKey save_recid fields s recid =
        ((mem (codes "recid") table.columns ≡ true)
          × (value : Value) × (item (codes "recid") fields ≡ ok value)
          × (int_value python value ≡ ok recid))
        ⊎ ((mem (codes "recid") table.columns ≡ false)
            × (is_given save_recid ≡ true)
            × (recid ≡ save_recid))
        ⊎ ((mem (codes "recid") table.columns ≡ false)
            × (is_given save_recid ≡ false)
            × (recid ≡ pos (db.last_id s))
            × (db.last_id s ≢ 0))

    read_row-run :
        (recid : ℤ) (s : S) {row : Option Spec} {last : S}
        → run db (read_row python casing library dumps table recid) s ≡ (ok row, last)
        → ReadsRow recid s row last
    unfolding read_row
    read_row-run recid s h =
        let (found, middle, f, g) = run-bind-ok db (get_rows python table recid none []) _ s h in
        let (value, same) = pair_eq g in
        (found, f ∙ ap (λ t. (ok found, t)) same, first found.0 value)
      where
        first : (rows : List Spec) {row : Option Spec} → first_row rows ≡ row → IsFirst rows row
        first [] e = sym e
        first (row ∷ rows) e = sym e

    read_before-run :
        (save_recid : ℤ) (s : S) {before : Option Spec} {last : S}
        → run db (read_before python casing library dumps table save_recid) s ≡ (ok before, last)
        → ReadsBefore save_recid s before last
    unfolding read_before
    read_before-run save_recid s h = elim (Bool-cases (is_given save_recid)) [
      | inl e ↦ inr (e, read_row-run save_recid s (rw e at h))
      | inr e ↦ let (f, g) = pair_eq (rw e at h) in inl (e, sym f, sym g)
    ]

    written_recid-run :
        (save_recid : ℤ) (fields : Spec) (s : S) {recid : ℤ} {last : S}
        → run db (written_recid python casing library table save_recid fields) s ≡ (ok recid, last)
        → IsWrittenKey save_recid fields s recid × (s ≡ last)
    unfolding written_recid
    written_recid-run save_recid fields s h =
        elim (Bool-cases (mem (codes "recid") table.columns)) [
          | inl e ↦
              let (value, f, g) =
                run-lift-ok db (item (codes "recid") fields)
                  (λ value. lift (int_value python value)) s (rw e at h) in
              let (k, same) = lifted (int_value python value) g in (inl (e, value, f, k), same)
          | inr e ↦ elim (Bool-cases (is_given save_recid)) [
            | inl f ↦ let (g, k) = pair_eq (rw (e, f) at h) in (inr (inl (e, f, sym g)), k)
            | inr f ↦ generated (db.last_id s == 0) refl (rw (e, f) at h) e f
          ]
        ]
      where
        lifted :
            (r : Result ℤ) {recid : ℤ} {last : S}
            → run db (lift r) s ≡ (ok recid, last)
            → (r ≡ ok recid) × (s ≡ last)
        lifted (ok z) e = let (f, g) = pair_eq e in (ap ok f, g)
        lifted (err x) e = absurd (raised-ne-returned e)

        clash : false ≡ true → ⊥
        clash h = cc

        generated :
            (b : Bool) {recid : ℤ} {last : S}
            → (db.last_id s == 0) ≡ b
            → run db (if b then raises runtime_error else returns (pos (db.last_id s))) s
              ≡ (ok recid, last)
            → mem (codes "recid") table.columns ≡ false
            → is_given save_recid ≡ false
            → IsWrittenKey save_recid fields s recid × (s ≡ last)
        generated true none_there k e f = absurd (raised-ne-returned k)
        generated false nonzero k e f =
            let (g, there) = pair_eq k in
            (
              inr (inr (e, f, sym g, λ z. clash (sym nonzero ∙ (==_iff (db.last_id s) 0).1 z))),
              there,
            )

    -- The JSON of an audit row, and the row itself.
    abbrev Traced : Text → UserContext → ℤ → Option Spec → Spec → AuditRow → Type 0
    Traced data_token context recid before row trace =
        (old : Option Text) × (text : Text) × JsonOf dumps before old
        × (dumps row ≡ ok text)
        × (trace ≡ trace_of_save python casing library dumps data_token context recid old text)

    audit_row-run :
        (data_token : Text) (context : UserContext) (recid : ℤ) (before : Option Spec) (row : Spec)
        (s : S) {trace : AuditRow} {last : S}
        → run db
            (audit_row python casing library dumps
              (codes "save")
              data_token
              context
              recid
              before
              (some row))
            s
          ≡ (ok trace, last)
        → Traced data_token context recid before row trace × (s ≡ last)
    unfolding audit_row record_json
    audit_row-run data_token context recid none row s h = elim (Result-cases (dumps row)) [
      | inl (text, e) ↦ let (f, g) = pair_eq (rw e at h) in ((none, text, refl, e, sym f), g)
      | inr (x, e) ↦ absurd (raised-ne-returned (rw e at h))
    ]
    audit_row-run data_token context recid (some before) row s h =
        elim (Result-cases (dumps before)) [
          | inr (x, k) ↦ absurd (raised-ne-returned (rw k at h))
          | inl (old, k) ↦ elim (Result-cases (dumps row)) [
            | inl (text, e) ↦
                let (f, g) = pair_eq (rw (k, e) at h) in ((some old, text, k, e, sym f), g)
            | inr (x, e) ↦ absurd (raised-ne-returned (rw (k, e) at h))
          ]
        ]

    -- After the write, in the state `s`: the row of the written key was read back, and one audit row was
    -- inserted, with the JSON of the row before and of the row read back.
    abbrev pub Records : Text → UserContext → ℤ → Spec → Option Spec → S → S → Type 0
    Records data_token context save_recid fields before s last =
        (recid : ℤ) × (row : Spec) × (old : Option Text) × (text : Text) × (middle : S) × (m : ℕ)
        × IsWrittenKey save_recid fields s recid
        × ReadsRow recid s (some row) middle
        × JsonOf dumps before old
        × (dumps row ≡ ok text)
        × (db.on_modify (insert_of audit_table 1)
              (all_values
                (trace_of_save python casing library dumps data_token context recid old text ∷ []))
              middle
            ≡ (ok m, last))

    -- A save: the row before it was read, it affected some rows, and, if any, that was recorded.
    abbrev pub SavesAndRecords : Text → UserContext → ℤ → Spec → S → ℕ → S → Type 0
    SavesAndRecords data_token context save_recid fields s affected last =
        (before : Option Spec) × (first : S) × (second : S) × ReadsBefore save_recid s before first
        × (run db (save python casing library table save_recid fields) first
            ≡ (ok affected, second))
        × (((affected ≡ 0) × (last ≡ second))
            ⊎ Records data_token context save_recid fields before second last)

    audit_stored-run :
        (data_token : Text) (context : UserContext) (save_recid : ℤ) (fields : Spec)
        (before : Option Spec) (affected n : ℕ) (recid : ℤ) (after : Option Spec) (s middle : S)
        {last : S}
        → IsWrittenKey save_recid fields s recid
        → ReadsRow recid s after middle
        → run db
            (audit_stored python casing library dumps data_token context before n recid after)
            middle
          ≡ (ok affected, last)
        → (affected ≡ n) × Records data_token context save_recid fields before s last
    unfolding audit_stored record_rows
    audit_stored-run data_token context save_recid fields before affected n recid none s middle k r
          h =
        absurd (raised-ne-returned h)
    audit_stored-run data_token context save_recid fields before affected n recid (some row) s
          middle {last = last} k r h =
        let (trace, after, f, g) =
          run-bind-ok db
            (audit_row python casing library dumps (codes "save") data_token context recid before
              (some row))
            _ middle h in
        let ((old, text, j, d, made), same) =
          audit_row-run data_token context recid before row middle f in
        let (m, final, i, o) =
          answered-eq-ok (λ m t. (ok n, t))
            (db.on_modify (insert_of audit_table 1) (all_values (trace ∷ [])) after) g in
        let (count, there) = pair_eq o in
        (
          sym count,
          (
            recid,
            row,
            old,
            text,
            middle,
            m,
            k,
            r,
            j,
            d,
            ap (λ t. db.on_modify (insert_of audit_table 1) (all_values (t ∷ [])) middle) (sym made)
                ∙ ap (λ t. db.on_modify (insert_of audit_table 1) (all_values (trace ∷ [])) t) same
                ∙ i
                ∙ ap (λ t. (ok m, t)) there,
          ),
        )

    audit_save-run :
        (data_token : Text) (context : UserContext) (save_recid : ℤ) (fields : Spec)
        (before : Option Spec) (affected n : ℕ) (s : S) {last : S}
        → run db
            (audit_save python casing library dumps table data_token context save_recid fields
              before n)
            s
          ≡ (ok affected, last)
        → (affected ≡ n)
          × (((affected ≡ 0) × (last ≡ s))
              ⊎ Records data_token context save_recid fields before s last)
    unfolding audit_save
    audit_save-run data_token context save_recid fields before affected zero s h =
        let (f, g) = pair_eq h in (sym f, inl (sym f, sym g))
    audit_save-run data_token context save_recid fields before affected (suc n) s h =
        let (recid, middle, f, g) =
          run-bind-ok db (written_recid python casing library table save_recid fields) _ s h in
        let (key, same) = written_recid-run save_recid fields s f in
        let (after, third, i, j) =
          run-bind-ok db (read_row python casing library dumps table recid) _ middle g in
        let (count, recorded) =
          audit_stored-run data_token context save_recid fields before affected (suc n) recid after
            s third key
            (subst (λ t. ReadsRow recid t after third) (sym same) (read_row-run recid middle i))
            j in
        (count, inr recorded)

    -- A save that returns a count has first read the row of its key, where one is given. It has run the
    -- write, which affected so many rows. If any, it has then read the row of the written key, and its last
    -- statement is the INSERT of one audit row, with the user, the token, that key, the JSON of the row
    -- read before, or nothing for a new one, and that of the row read after; if none, it has run no more. The
    -- written key is the posted one in a table whose columns have it, else the given one, else the one
    -- that the server generated. This holds whatever the server answers.
    pub save_block-SavesAndRecords :
        (data_token : Text) (context : UserContext) (save_recid : ℤ) (fields : Spec) (s last : S)
        (affected : ℕ)
        → run db
            (save_block python casing library dumps table data_token save_recid context fields)
            s
          ≡ (ok affected, last)
        → SavesAndRecords data_token context save_recid fields s affected last
    unfolding save_block
    save_block-SavesAndRecords data_token context save_recid fields s last affected h =
        let (before, first, f, g) =
          run-bind-ok db (read_before python casing library dumps table save_recid) _ s h in
        let (n, second, i, j) =
          run-bind-ok db (save python casing library table save_recid fields) _ first g in
        let (count, recorded) =
          audit_save-run data_token context save_recid fields before affected n second j in
        (
          before,
          first,
          second,
          read_before-run save_recid s f,
          i ∙ ap (λ a. (ok a, second)) (sym count),
          recorded,
        )
