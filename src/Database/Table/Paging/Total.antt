-- ===== src/Database/Table/Paging/Total.antt =====
-- The total that a page reports (database/mysql/tables.py, `_read`).
use powergslb.Base.{
  ℕ, zero, suc, ◌+◌, ◌-◌, ◌≤◌, ◌≡◌, refl, ap, ◌∙◌, true, false, List, [], ◌∷◌, ◌++◌, some, Text,
  codes, Bool-cases, inl, inr, length, length-take, take, drop, arith, ok, is_empty,
}
use powergslb.Base.Dict.{get, text_key}
use powergslb.Base.Values.{pos, int}
use powergslb.Database.Page.{PageRequest}
use powergslb.Database.Program.{Executor, run, run-selects, selects, returns, lift, ◌>>=◌}
use powergslb.Database.Statement.{Param}
use powergslb.Database.Table.{Table}
use powergslb.Database.Table.Paging.{
  limit, order, wrapped, count_query, shows_end, with_total, total_of, total_item, read,
}
use powergslb.Database.Table.Search.{Python, Condition, search, int_value}
use powergslb.Routing.Create.{Spec}

-- `LIMIT most OFFSET skipped`
abbrev pub window : ℕ → ℕ → List Spec → List Spec
window most skipped rows = take most (drop skipped rows)

-- The row of a COUNT query.
abbrev pub count_rows : ℕ → List Spec
count_rows n = ((codes "total", int (pos n)) ∷ []) ∷ []

length-drop : {A : Type 0} (n : ℕ) (xs : List A) → length (drop n xs) ≡ length xs - n
length-drop zero xs = omega arith
length-drop (suc n) [] = omega arith
length-drop (suc n) (x ∷ xs) = omega (arith, length-drop n xs)

is_empty-zero : {A : Type 0} (xs : List A) → is_empty xs ≡ false → 1 ≤ length xs
is_empty-zero [] h = cc
is_empty-zero (x ∷ xs) h = omega arith

-- A page that is not full, and that is the first or has rows, ends where the matching rows end.
ends_there :
    (rows : List Spec) (most skipped : ℕ)
    → shows_end (window most skipped rows) (pos most) (pos skipped) ≡ true
    → skipped + length (window most skipped rows) ≡ length rows
ends_there rows most skipped h = ground (
  arith,
  length-take most (drop skipped rows),
  length-drop skipped rows,
  is_empty-zero (window most skipped rows),
)

-- The COUNT query is read as it was answered.
pub total_of-count_rows : (python : Python) (n : ℕ) → total_of python (count_rows n) ≡ ok (pos n)
unfolding total_of total_item int_value get
total_of-count_rows python n = refl

module _ {S : Type 0} (db : Executor S) (python : Python) (table : Table) where
  module _ (operation : Text) (params : List Param) (rows : List Spec) (page : PageRequest)
      (condition : Condition) where
    -- MySQL answers the wrapped statement with the matching rows in the page's window.
    abbrev pub AnswersPage : ℕ → ℕ → S → S → Type 0
    AnswersPage most skipped s after =
        db.on_select (wrapped operation condition.0 (order table page) (limit page).0)
          (params ++ condition.1 ++ (limit page).1) s
        ≡ (ok (window most skipped rows), after)

    -- It answers the COUNT query with their number.
    abbrev pub AnswersCount : S → Type 0
    AnswersCount after =
        db.on_select (count_query operation condition.0) (params ++ condition.1) after
        ≡ (ok (count_rows (length rows)), after)

    total-window :
        (most skipped : ℕ) (after : S)
        → AnswersCount after
        → run db
            (with_total python operation params condition
              (some (pos most))
              (some (pos skipped))
              (window most skipped rows))
            after
          ≡ (ok (window most skipped rows, pos (length rows)), after)
    unfolding with_total
    total-window most skipped after counted =
        elim (Bool-cases (shows_end (window most skipped rows) (pos most) (pos skipped))) [
          | inl e ↦ rw (e, ends_there rows most skipped e) refl
          | inr e ↦ rw e (
              run-selects db (count_query operation condition.0) (params ++ condition.1)
                (λ counts. lift (total_of python counts) >>= λ total.
                  returns (window most skipped rows, total))
                after after (count_rows (length rows)) counted
              ∙ ap
                  (λ r.
                    run db (lift r >>= λ total. returns (window most skipped rows, total)) after)
                  (total_of-count_rows python (length rows)))
        ]

    read-found :
        search python table page ≡ ok condition
        → read python table operation params (some page)
          ≡ selects
              (wrapped operation condition.0 (order table page) (limit page).0)
              (params ++ condition.1 ++ (limit page).1)
              (λ found. with_total python operation params condition page.limit page.offset found)
    unfolding read
    read-found h = rw h refl

    -- A page with a limit and an offset is returned with the number of all rows that match, whether it is
    -- counted by a second query or inferred from the page, if the server answers with the window of the
    -- matching rows and with their count.
    pub read-total :
        (most skipped : ℕ) (s after : S)
        → page.limit ≡ some (pos most)
        → page.offset ≡ some (pos skipped)
        → search python table page ≡ ok condition
        → AnswersPage most skipped s after
        → AnswersCount after
        → run db (read python table operation params (some page)) s
          ≡ (ok (window most skipped rows, pos (length rows)), after)
    read-total most skipped s after l o found answer counted =
        ap (λ p. run db p s) (read-found found)
        ∙ run-selects db _ _
            (λ rows. with_total python operation params condition page.limit page.offset rows) s
            after (window most skipped rows) answer
        ∙ rw (l, o) (total-window most skipped after counted)
