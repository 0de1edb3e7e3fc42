-- ===== src/Database/Table/Paging/Safety.antt =====
-- The placeholders of the statements that read a page (database/mysql/tables.py, `_read`).
use powergslb.Base.{
  refl, Bool, true, false, ◌&&◌, not, List, [], ◌∷◌, ◌++◌, map, any, Option, none, some, Text,
  codes, text_eq, All, All-append, All-map, All-imp, Bool-cases, inl, inr, length-append, arith,
  if◌then◌else◌, Result, ok, err, Returns,
}
use powergslb.Base.Values.{ℤ}
use powergslb.Database.Page.{SortClause, PageRequest}
use powergslb.Database.Program.{Program, Runs, Runs-bind, lift, ◌>>=◌}
use powergslb.Database.Statement.{Param}
use powergslb.Database.Table.{Table, mem, comma}
use powergslb.Database.Table.Marks.{
  IsPlain, IsBound, ◌⊕◌, as_many, counts, IsPlain-quoted, IsPlain-join,
}
use powergslb.Database.Table.Paging.{
  limit, paging_of, order_by, known_sorts, order_term, order_terms, order, by_recid, is_limited,
  wrapped, count_query, shows_end, with_total, total_of, read,
}
use powergslb.Routing.Create.{Spec}
use powergslb.Database.Table.Search.{Python, Condition, search}
use powergslb.Database.Table.Search.Safety.{Binds, PlainFields, mem-All, search-Binds}

-- Every statement that a method can run binds its parameters, and each write has a property.
abbrev pub Bounded : (Q : Text → List Param → Type 0) {A : Type 0} → Program A → Type 0
Bounded Q p = Runs IsBound Q (λ a. Unit) p

abbrev pub NoWrite : Text → List Param → Type 0
NoWrite operation params = ⊥

-- The method only reads, and binds its parameters.
abbrev pub Reads : {A : Type 0} → Program A → Type 0
Reads p = Bounded NoWrite p

abbrev pub RunsBound : {A : Type 0} → Program A → Type 0
RunsBound p = Bounded IsBound p

module _ (Q : Text → List Param → Type 0) {A B : Type 0} where
  pub Bounded-bind :
      (p : Program A) (rest : A → Program B)
      → Bounded Q p
      → ((a : A) → Bounded Q (rest a))
      → Bounded Q (p >>= rest)
  Bounded-bind p rest h k = Runs-bind IsBound Q (λ a. Unit) (λ b. Unit) p rest h (λ a u. k a)

  -- What a call returns, where it does, decides what follows.
  pub Bounded-lift :
      (P : A → Type 0) (r : Result A) (rest : A → Program B)
      → Returns P r
      → ((a : A) → P a → Bounded Q (rest a))
      → Bounded Q (lift r >>= rest)
  Bounded-lift P (ok a) rest h k = k a h
  Bounded-lift P (err e) rest h k = tt

  pub Bounded-lifted :
      (r : Result A) (rest : A → Program B)
      → ((a : A) → Bounded Q (rest a))
      → Bounded Q (lift r >>= rest)
  Bounded-lifted (ok a) rest k = k a
  Bounded-lifted (err e) rest k = tt

limit-Binds : (page : PageRequest) → Binds (limit page)
unfolding limit
limit-Binds page = of_paging page.limit page.offset
  where
    of_paging : (most skipped : Option ℤ) → Binds (paging_of most skipped)
    of_paging none skipped = counts [] refl
    of_paging (some l) none = counts (codes " LIMIT %s") refl
    of_paging (some l) (some o) = counts (codes " LIMIT %s OFFSET %s") refl

order_term-IsPlain : (sort : SortClause) → IsPlain sort.field_name → IsPlain (order_term sort)
order_term-IsPlain sort p = elim (Bool-cases (text_eq sort.direction (codes "desc"))) [
  | inl e ↦ rw e (as_many (IsPlain-quoted p ⊕ counts (codes " DESC") refl) refl)
  | inr e ↦ rw e (IsPlain-quoted p)
]

module _ (table : Table) (plain_fields : PlainFields table) where
  sorts-IsPlain :
      (sorts : List SortClause)
      → All (λ (sort : SortClause). IsPlain sort.field_name) (known_sorts table sorts)
  sorts-IsPlain [] = tt
  sorts-IsPlain (sort ∷ sorts) = elim (Bool-cases (mem sort.field_name table.fields)) [
    | inl e ↦
        rw e (mem-All IsPlain sort.field_name table.fields e plain_fields, sorts-IsPlain sorts)
    | inr e ↦ rw e (sorts-IsPlain sorts)
  ]

  order_terms-IsPlain : (page : PageRequest) → All IsPlain (order_terms table page)
  unfolding order_terms
  order_terms-IsPlain page =
      All-append IsPlain (map order_term (known_sorts table page.sorts)) _
        (All-map IsPlain order_term (known_sorts table page.sorts)
          (All-imp (known_sorts table page.sorts) order_term-IsPlain (sorts-IsPlain page.sorts)))
        (tiebreak (is_limited page.limit && not (any by_recid (known_sorts table page.sorts))))
    where
      tiebreak : (b : Bool) → All IsPlain (if b then codes "`recid`" ∷ [] else [])
      tiebreak true = (counts (codes "`recid`") refl, tt)
      tiebreak false = tt

  order-IsPlain : (page : PageRequest) → IsPlain (order table page)
  unfolding order
  order-IsPlain page = of_terms (order_terms table page) (order_terms-IsPlain page)
    where
      of_terms : (terms : List Text) → All IsPlain terms → IsPlain (order_by terms)
      of_terms [] h = counts [] refl
      of_terms (term ∷ terms) h =
          counts (codes " ORDER BY ") refl ⊕ IsPlain-join comma (term ∷ terms) (counts comma refl) h

module _ (python : Python) (table : Table) (plain_fields : PlainFields table) where
  module _ (operation : Text) (params : List Param) (bound : IsBound operation params) where
    wrapped-IsBound :
        (condition : Condition) (page : PageRequest)
        → Binds condition
        → IsBound
            (wrapped operation condition.0 (order table page) (limit page).0)
            (params ++ condition.1 ++ (limit page).1)
    wrapped-IsBound condition page b =
        as_many
          (counts (codes "SELECT * FROM (") refl
            ⊕ bound
            ⊕ counts (codes ") AS `t`") refl
            ⊕ b
            ⊕ order-IsPlain table plain_fields page
            ⊕ limit-Binds page)
          (omega (
            arith,
            length-append (params ++ condition.1) (limit page).1,
            length-append params condition.1,
          ))

    count-IsBound :
        (condition : Condition)
        → Binds condition
        → IsBound (count_query operation condition.0) (params ++ condition.1)
    count-IsBound condition b =
        as_many
          (counts (codes "SELECT COUNT(*) AS `total` FROM (") refl
            ⊕ bound
            ⊕ counts (codes ") AS `t`") refl
            ⊕ b)
          (omega (arith, length-append params condition.1))

    with_total-Reads :
        (condition : Condition) (most skipped : Option ℤ) (rows : List Spec)
        → Binds condition
        → Reads (with_total python operation params condition most skipped rows)
    unfolding with_total
    with_total-Reads condition (some l) (some o) rows b = elim (Bool-cases (shows_end rows l o)) [
      | inl e ↦ rw e tt
      | inr e ↦ rw e (
        count-IsBound condition b,
        λ counted. Bounded-lifted NoWrite (total_of python counted) _ (λ n. tt),
      )
    ]
    with_total-Reads condition (some l) none rows b = tt
    with_total-Reads condition none skipped rows b = tt

    pub read-Reads : (page : Option PageRequest) → Reads (read python table operation params page)
    unfolding read
    read-Reads none = (bound, λ rows. tt)
    read-Reads (some page) =
        Bounded-lift NoWrite Binds (search python table page) _
          (search-Binds python table page plain_fields)
          (λ condition b. (
            wrapped-IsBound condition page b,
            λ rows. with_total-Reads condition page.limit page.offset rows b,
          ))
