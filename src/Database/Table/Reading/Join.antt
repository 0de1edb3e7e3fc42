-- ===== src/Database/Table/Reading/Join.antt =====
-- The join of a page of record ids (database/mysql/tables.py, `Records._join_page`).
use powergslb.Base.{
  ◌≡◌, refl, sym, ap, ◌∙◌, subst, List, [], ◌∷◌, ◌++◌, map, Option, none, some, Text, codes, All,
  All-imp, Bool-cases, inl, inr, length, collect, if◌then◌else◌, ok, ok_inj,
}
use powergslb.Base.Dict.{Dict, get, put, get-put, IsDict}
use powergslb.Base.Values.{ℤ, int}
use powergslb.Database.Program.{Executor, Program, run, run-selects, selects, returns, lift, ◌>>=◌}
use powergslb.Database.Statement.{Param, plain}
use powergslb.Database.Table.{records, placeholders, select_of}
use powergslb.Database.Table.Keys.{int_key, int_eq, int_eq_iff, recid_of, recids, keyed}
use powergslb.Database.Table.Reading.{in_order, base_join_page}
use powergslb.Database.Table.Registry.{records_table}
use powergslb.Routing.Create.{Spec}

abbrev pub keys_of : Dict ℤ Spec → List ℤ
keys_of pairs = map (λ (p : ℤ × Spec). p.0) pairs

abbrev pub rows_of : Dict ℤ Spec → List Spec
rows_of pairs = map (λ (p : ℤ × Spec). p.1) pairs

-- The key of an entry is the key of its row.
abbrev pub HasKey : ℤ × Spec → Type 0
HasKey (key, row) = recid_of row ≡ ok key

abbrev or_other : Option Spec → Option Spec → Option Spec
or_other none o = o
or_other (some row) o = some row

-- A `dict` of rows by their keys.
keyed-get :
    (entries pairs : Dict ℤ Spec)
    → All HasKey pairs
    → IsDict pairs
    → (by_id : Dict ℤ Spec) × (keyed ok entries (rows_of pairs) ≡ ok by_id)
      × ((k : ℤ) → get k by_id ≡ or_other (get k pairs) (get k entries))
unfolding keyed get
keyed-get entries [] h d = (entries, refl, λ k. refl)
keyed-get entries ((key, row) ∷ pairs) h d =
    let (by_id, made, there) = keyed-get (put key row entries) pairs h.1 d.1 in
    (by_id, rw h.0 made, λ k. there k ∙ first k)
  where
    first :
        (k : ℤ)
        → or_other (get k pairs) (get k (put key row entries))
          ≡ or_other (if int_eq key k then some row else get k pairs) (get k entries)
    first k = elim (Bool-cases (int_eq key k)) [
      | inl e ↦
          rw
            (
              get-put key k row entries,
              e,
              subst (λ i. get i pairs ≡ none) ((int_eq_iff key k).0 e) d.0,
            )
            refl
      | inr e ↦ rw (get-put key k row entries, e) refl
    ]

collect-found :
    (f : ℤ → Option Spec) (key : ℤ) (keys : List ℤ) {row : Spec}
    → f key ≡ some row
    → collect f (key ∷ keys) ≡ row ∷ collect f keys
collect-found f key keys h = rw (collect, h) refl

-- The rows of a page, in its order.
collect-get :
    (by_id pairs : Dict ℤ Spec)
    → All (λ (p : ℤ × Spec). get p.0 by_id ≡ some p.1) pairs
    → in_order (keys_of pairs) by_id ≡ rows_of pairs
unfolding in_order
collect-get by_id [] h = refl
collect-get by_id ((key, row) ∷ pairs) h =
    collect-found (λ k. get k by_id) key (keys_of pairs) h.0
    ∙ ap (◌∷◌ row) (collect-get by_id pairs h.1)

no_keys : (pairs : Dict ℤ Spec) → keys_of pairs ≡ [] → rows_of pairs ≡ []
no_keys [] h = refl
no_keys (p ∷ pairs) h = cc

-- The statement of `_join_page`.
unfoldable pub join_query : List ℤ → Text
unfolding select_of
join_query ids =
    select_of records records_table
    ++ codes " WHERE `records`.`id` IN ("
    ++ placeholders (length ids)
    ++ codes ")"

abbrev pub id_params : List ℤ → List Param
id_params ids = map (λ id. plain (int id)) ids

module _ {S : Type 0} (db : Executor S) (s : S) where
  -- A page of record ids is joined to its rows in its order, wherever the server returns them.
  pub base_join_page-rows :
      (pairs joined : Dict ℤ Spec) (id_rows : List Spec)
      → recids id_rows ≡ ok (keys_of pairs)
      → db.on_select (join_query (keys_of pairs)) (id_params (keys_of pairs)) s
        ≡ (ok (rows_of joined), s)
      → All HasKey joined
      → IsDict joined
      → All (λ (p : ℤ × Spec). get p.0 joined ≡ some p.1) pairs
      → run db (base_join_page records_table id_rows) s ≡ (ok (rows_of pairs), s)
  unfolding base_join_page recids join_query
  base_join_page-rows pairs joined [] ids answer own distinct there =
      ap (λ l. (ok l, s)) (sym (no_keys pairs (sym (ok_inj ids))))
  base_join_page-rows pairs joined (row ∷ id_rows) ids answer own distinct there =
      let (by_id, made, found) = keyed-get [] joined own distinct in
      let looked =
        collect-get by_id pairs
          (All-imp pairs (λ p g. found p.0 ∙ ap (λ o. or_other o none) g) there) in
      ap (λ r. run db (lift r >>= joining) s) ids
      ∙ run-selects db (join_query (keys_of pairs)) (id_params (keys_of pairs))
          (keying (keys_of pairs)) s s (rows_of joined) answer
      ∙ ap (λ r. run db (lift r >>= λ by_id. returns (in_order (keys_of pairs) by_id)) s) made
      ∙ ap (λ l. (ok l, s)) looked
    where
      keying : List ℤ → List Spec → Program (List Spec)
      keying keys rows = lift (keyed ok [] rows) >>= λ by_id. returns (in_order keys by_id)

      joining : List ℤ → Program (List Spec)
      joining keys = selects (join_query keys) (id_params keys) (keying keys)
