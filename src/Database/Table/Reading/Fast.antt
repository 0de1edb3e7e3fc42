-- ===== src/Database/Table/Reading/Fast.antt =====
-- A page of records that is joined after it is cut (database/mysql/tables.py, `Records.get`), against the
-- page of the join.
use powergslb.Base.{
  ℕ, ◌≡◌, refl, sym, ap, ◌∙◌, List, [], ◌∷◌, ◌++◌, Option, none, some, Text, All, Bool-cases, inl,
  inr, length, length-map, arith, if◌then◌else◌, ok, is_empty,
}
use powergslb.Base.Dict.{Dict, get, IsDict}
use powergslb.Base.Values.{ℤ, pos}
use powergslb.Database.Page.{PageRequest}
use powergslb.Database.Program.{
  Executor, Program, run, run-selects, run-bind, answered, selects, returns, lift, ◌>>=◌,
}
use powergslb.Database.Table.{records, select_of}
use powergslb.Database.Table.Keys.{int_key, recids, length-recids}
use powergslb.Database.Table.Paging.{
  Found, limit, order, wrapped, count_query, shows_end, plus, with_total, total_of, read,
}
use powergslb.Database.Table.Paging.Total.{count_rows, total_of-count_rows}
use powergslb.Database.Table.Reading.{
  base_join_page, join_page, local_select, one_or_all, base_get, paged_get,
}
use powergslb.Database.Table.Registry.{records_table}
use powergslb.Database.Table.Search.{Python, Condition, search}
use powergslb.Routing.Create.{Spec}
use powergslb.Database.Table.Reading.Join.{
  keys_of, rows_of, HasKey, join_query, id_params, base_join_page-rows,
}

-- The total that a page of rows reports where a COUNT query would answer `n`.
abbrev reported : Option ℤ → Option ℤ → List Spec → ℕ → ℤ
reported (some most) (some skipped) rows n =
    if shows_end rows most skipped then plus skipped (length rows) else pos n
reported most skipped rows n = pos (length rows)

is_empty-length : (a b : List Spec) → length a ≡ length b → is_empty a ≡ is_empty b
is_empty-length [] [] h = refl
is_empty-length [] (y ∷ b) h = absurd (omega (arith, h))
is_empty-length (x ∷ a) [] h = absurd (omega (arith, h))
is_empty-length (x ∷ a) (y ∷ b) h = refl

-- It depends on the number of rows alone.
reported-length :
    (most skipped : Option ℤ) (a b : List Spec) (n : ℕ)
    → length a ≡ length b
    → reported most skipped a n ≡ reported most skipped b n
reported-length (some most) (some skipped) a b n h = rw (h, is_empty-length a b h) refl
reported-length (some most) none a b n h = ap pos h
reported-length none skipped a b n h = ap pos h

module _ {S : Type 0} (db : Executor S) (python : Python) (s : S) where
  -- What the server answers to the two statements of a page over a source.
  abbrev pub Serves : Text → PageRequest → Condition → List Spec → ℕ → Type 0
  Serves operation page condition rows n =
      (db.on_select (wrapped operation condition.0 (order records_table page) (limit page).0)
          (condition.1 ++ (limit page).1) s
        ≡ (ok rows, s))
      × (db.on_select (count_query operation condition.0) condition.1 s ≡ (ok (count_rows n), s))

  counted :
      (operation : Text) (page : PageRequest) (condition : Condition) (rows : List Spec) (n : ℕ)
      (most skipped : Option ℤ)
      → Serves operation page condition rows n
      → run db (with_total python operation [] condition most skipped rows) s
        ≡ (ok (rows, reported most skipped rows n), s)
  unfolding with_total
  counted operation page condition rows n none skipped h = refl
  counted operation page condition rows n (some most) none h = refl
  counted operation page condition rows n (some most) (some skipped) h =
      elim (Bool-cases (shows_end rows most skipped)) [
        | inl e ↦ rw e refl
        | inr e ↦ rw e (
            run-selects db (count_query operation condition.0) condition.1
              (λ counts. lift (total_of python counts) >>= λ total. returns (rows, total)) s s
              (count_rows n) h.1
            ∙ ap (λ r. run db (lift r >>= λ total. returns (rows, total)) s)
                (total_of-count_rows python n))
      ]

  read-served :
      (operation : Text) (page : PageRequest) (condition : Condition) (rows : List Spec) (n : ℕ)
      → search python records_table page ≡ ok condition
      → Serves operation page condition rows n
      → run db (read python records_table operation [] (some page)) s
        ≡ (ok (rows, reported page.limit page.offset rows n), s)
  unfolding read
  read-served operation page condition rows n found h =
      ap
        (λ r.
          run db
            (lift r >>= λ (c : Condition).
              selects (wrapped operation c.0 (order records_table page) (limit page).0)
                (c.1 ++ (limit page).1)
                (λ rows. with_total python operation [] c page.limit page.offset rows))
            s)
        found
      ∙ run-selects db _ _
          (λ rows. with_total python operation [] condition page.limit page.offset rows) s s rows
          h.0
      ∙ counted operation page condition rows n page.limit page.offset h

  -- Paging the records by key first, and then joining the page, gives what paging the join gives: the same
  -- rows in the same order, and the same total. That is so where the server answers the page of the keys and
  -- the page of the join with the same keys in the same order, counts the same rows for both, and finds the
  -- page's rows, in any order, for the join of the page.
  pub paged_get-full :
      (page : PageRequest) (condition : Condition) (pairs joined : Dict ℤ Spec)
      (id_rows : List Spec) (n : ℕ)
      → search python records_table page ≡ ok condition
      → Serves (local_select records []).0 page condition id_rows n
      → Serves (select_of records records_table) page condition (rows_of pairs) n
      → recids id_rows ≡ ok (keys_of pairs)
      → db.on_select (join_query (keys_of pairs)) (id_params (keys_of pairs)) s
        ≡ (ok (rows_of joined), s)
      → All HasKey joined
      → IsDict joined
      → All (λ (p : ℤ × Spec). get p.0 joined ≡ some p.1) pairs
      → run db (paged_get python records_table [] page) s
        ≡ run db (base_get python records_table (pos 0) (some page)) s
  unfolding paged_get base_get one_or_all local_select join_page
  paged_get-full page condition pairs joined id_rows n found fast full ids answer own distinct
        there =
      run-bind db (read python records_table (local_select records []).0 [] (some page)) joins s
      ∙ ap (answered (λ found after. run db (joins found) after))
          (read-served (local_select records []).0 page condition id_rows n found fast)
      ∙ run-bind db (base_join_page records_table id_rows)
          (λ rows. returns (rows, reported page.limit page.offset id_rows n)) s
      ∙ ap (answered (λ rows after. (ok (rows, reported page.limit page.offset id_rows n), after)))
          (base_join_page-rows db s pairs joined id_rows ids answer own distinct there)
      ∙ ap (λ t. (ok (rows_of pairs, t), s))
          (reported-length page.limit page.offset id_rows (rows_of pairs) n (
            sym (length-recids id_rows ids)
            ∙ length-map (λ (p : ℤ × Spec). p.0) pairs
            ∙ sym (length-map (λ (p : ℤ × Spec). p.1) pairs)))
      ∙ sym (
          read-served (select_of records records_table) page condition (rows_of pairs) n found full)
    where
      joins : Found → Program Found
      joins found = base_join_page records_table found.0 >>= λ rows. returns (rows, found.1)
