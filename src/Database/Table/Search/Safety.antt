-- ===== src/Database/Table/Search/Safety.antt =====
-- No posted text reaches the text of a WHERE clause (database/mysql/tables.py).
use powergslb.Base.{
  ℕ, suc, ◌≡◌, refl, ap, subst, Bool, true, false, ◌||◌, ◌&&◌, not, List, [], ◌∷◌, ◌++◌, map,
  Option, none, some, if◌then◌else◌, Text, codes, text_eq, text_eq→eq, Result, ok, err, Error,
  ◌>>=◌, >>=-eq-ok, length, length-append, All, Bool-cases, inl, inr, arith, ok_inj, Returns,
  Returns-ok, >>=-Returns, is_empty,
}
use powergslb.Base.Values.{Value, nil, cons, null, bool, int, float, str, list, dict}
use powergslb.Database.Page.{SearchClause, PageRequest}
use powergslb.Database.Statement.{Param, plain}
use powergslb.Database.Table.{Table, mem, quoted}
use powergslb.Database.Table.Marks.{
  IsPlain, IsBound, ◌⊕◌, as_many, counts, IsPlain-quoted, HasMarks-placeholders, HasMarks-join,
  HaveMarks, sum,
}
use powergslb.Database.Table.Search.{
  Python, Condition, caught, int_condition, text_clause, int_clause, date_clause, typed_clause,
  search_clause, search_clauses, all_params, where_clause, search, int_errors, date_errors,
  int_values, int_value, in_condition, between_condition, items_of, day_range, day_after,
  date_between, field_clause, date_of, operators, onto,
}

-- A condition binds its parameters.
abbrev pub Binds : Condition → Type 0
Binds condition = IsBound condition.0 condition.1

-- A call that returns a condition returns one that binds its parameters.
abbrev AllBind : Result Condition → Type 0
AllBind r = Returns Binds r

caught-AllBind :
    (catches : Error → Bool) (r : Result Condition) → AllBind r → AllBind (caught catches r)
caught-AllBind catches (ok condition) h = h
caught-AllBind catches (err e) h = elim (Bool-cases (catches e)) [
  | inl f ↦ rw f (counts (codes "0 = 1") refl)
  | inr f ↦ rw f tt
]

then_returns :
    {A : Type 0} (r : Result A) (rest : A → Result Condition)
    → ((a : A) → r ≡ ok a → AllBind (rest a))
    → AllBind (r >>= rest)
then_returns r rest h = >>=-Returns Binds r rest h

length-int_values :
    (python : Python) (values : List Value) {params : List Param}
    → int_values python values ≡ ok params
    → length params ≡ length values
length-int_values python [] h = let e = ok_inj h in rw (← e) refl
length-int_values python (value ∷ values) h =
    let (z, e, f) = >>=-eq-ok {B = List Param} (int_value python value) _ h in
    let (zs, g, k) = >>=-eq-ok {B = List Param} (int_values python values) _ f in
    let shorter = length-int_values python values g in
    let same = ok_inj k in rw (← same) (ap suc shorter)

negation : (negate : Bool) → IsPlain (if negate then codes "NOT " else [])
negation true = counts _ refl
negation false = counts _ refl

module _ (python : Python) (column : Text) (plain_column : IsPlain column) where
  in_condition-AllBind :
      (negate : Bool) (values : List Value) → AllBind (in_condition python column negate values)
  in_condition-AllBind negate [] = counts (codes "0 = 1") refl
  in_condition-AllBind negate (value ∷ values) =
      then_returns (int_values python (value ∷ values)) _ (λ params e.
        as_many
          (plain_column
            ⊕ counts (codes " ") refl
            ⊕ negation negate
            ⊕ counts (codes "IN (") refl
            ⊕ HasMarks-placeholders (suc (length values))
            ⊕ counts (codes ")") refl)
          (omega (arith, length-int_values python (value ∷ values) e)))

  between-IsBound : (m n : Param) → IsBound (column ++ codes " BETWEEN %s AND %s") (m ∷ n ∷ [])
  between-IsBound m n = as_many (plain_column ⊕ counts (codes " BETWEEN %s AND %s") refl) refl

  between-AllBind : (value : Value) → AllBind (between_condition python column value)
  between-AllBind (list (cons first (cons last values))) =
      then_returns (int_value python first) _ (λ m e.
        then_returns (int_value python last) _
          (λ n f. between-IsBound (plain (int m)) (plain (int n))))
  between-AllBind (list (cons first nil)) = then_returns (int_value python first) _ (λ m e. tt)
  between-AllBind (list nil) = tt
  between-AllBind null = counts (codes "0 = 1") refl
  between-AllBind (bool b) = counts (codes "0 = 1") refl
  between-AllBind (int z) = counts (codes "0 = 1") refl
  between-AllBind (float f) = counts (codes "0 = 1") refl
  between-AllBind (str t) = counts (codes "0 = 1") refl
  between-AllBind (dict d) = counts (codes "0 = 1") refl

  is_bound : (p : Param) → IsBound (column ++ codes " = %s") (p ∷ [])
  is_bound p = as_many (plain_column ⊕ counts (codes " = %s") refl) refl

  int_clause-AllBind :
      (operator : Text) (value : Value) → AllBind (int_clause python column operator value)
  unfolding int_clause
  int_clause-AllBind operator value =
      caught-AllBind int_errors (int_condition python column operator value)
        (elim (Bool-cases (text_eq operator (codes "is"))) [
          | inl e ↦ rw e (then_returns (int_value python value) _ (λ z f. is_bound (plain (int z))))
          | inr e ↦
              elim (Bool-cases
                (text_eq operator (codes "in") || text_eq operator (codes "not in"))) [
                  | inl f ↦
                      rw (e, f)
                        (in_condition-AllBind (text_eq operator (codes "not in")) (items_of value))
                  | inr f ↦ rw (e, f) (between-AllBind value)
                ]
        ])

  day_range-AllBind : (m n : ℕ) → AllBind (day_range python column m n)
  day_range-AllBind m n = then_returns (day_after python n) _ (λ after e.
      as_many
        (plain_column
          ⊕ counts (codes " >= %s AND ") refl
          ⊕ plain_column
          ⊕ counts (codes " < %s") refl)
        refl)

  date_between-AllBind : (value : Value) → AllBind (date_between python column value)
  date_between-AllBind (list (cons first (cons last values))) =
      then_returns (date_of python first) _
        (λ m e. then_returns (date_of python last) _ (λ n f. day_range-AllBind m n))
  date_between-AllBind (list (cons first nil)) = then_returns (date_of python first) _ (λ m e. tt)
  date_between-AllBind (list nil) = tt
  date_between-AllBind null = counts (codes "0 = 1") refl
  date_between-AllBind (bool b) = counts (codes "0 = 1") refl
  date_between-AllBind (int z) = counts (codes "0 = 1") refl
  date_between-AllBind (float f) = counts (codes "0 = 1") refl
  date_between-AllBind (str t) = counts (codes "0 = 1") refl
  date_between-AllBind (dict d) = counts (codes "0 = 1") refl

  date_clause-AllBind :
      (operator : Text) (value : Value) → AllBind (date_clause python column operator value)
  unfolding date_clause
  date_clause-AllBind operator value =
      caught-AllBind date_errors _ (elim (Bool-cases (text_eq operator (codes "is"))) [
        | inl e ↦ rw e (then_returns (date_of python value) _ (λ day f. day_range-AllBind day day))
        | inr e ↦ rw e (date_between-AllBind value)
      ])

  text_clause-Binds :
      (operator : Text) (value : Value) → Binds (text_clause python column operator value)
  unfolding text_clause
  text_clause-Binds operator value = elim (Bool-cases (text_eq operator (codes "is"))) [
    | inl e ↦ rw e (is_bound (plain (str (python.show value))))
    | inr e ↦ rw e (as_many (plain_column ⊕ counts (codes " LIKE %s") refl) refl)
  ]

  typed_clause-AllBind :
      (type operator : Text) (value : Value)
      → AllBind (typed_clause python type column operator value)
  unfolding typed_clause
  typed_clause-AllBind type operator value = elim (Bool-cases (text_eq type (codes "text"))) [
    | inl e ↦ rw e (text_clause-Binds operator value)
    | inr e ↦ elim (Bool-cases (text_eq type (codes "int"))) [
      | inl f ↦ rw (e, f) (int_clause-AllBind operator value)
      | inr f ↦ rw (e, f) (date_clause-AllBind operator value)
    ]
  ]

-- The table's field names have no `%`.
abbrev pub PlainFields : Table → Type 0
PlainFields table = All IsPlain table.fields

-- What is found in a list has what all its members have.
pub mem-All :
    (P : Text → Type 0) (name : Text) (names : List Text)
    → mem name names ≡ true
    → All P names
    → P name
mem-All P name [] h all_there = cc
mem-All P name (n ∷ names) h all_there = elim (Bool-cases (text_eq n name)) [
  | inl e ↦ subst P (text_eq→eq n name e) all_there.0
  | inr e ↦ mem-All P name names (subst (λ t. (t || mem name names) ≡ true) e h) all_there.1
]

-- A clause that is there binds its parameters.
abbrev OptionBinds : Option Condition → Type 0
OptionBinds none = Unit
OptionBinds (some condition) = Binds condition

onto-Binds :
    (condition : Option Condition) (conditions : List Condition)
    → OptionBinds condition
    → All Binds conditions
    → All Binds (onto condition conditions)
onto-Binds none conditions h k = k
onto-Binds (some condition) conditions h k = (h, k)

module _ (python : Python) (table : Table) (plain_fields : PlainFields table) where
  search_clause-Returns :
      (clause : SearchClause) → Returns OptionBinds (search_clause python table clause)
  unfolding search_clause field_clause
  search_clause-Returns clause = elim (Bool-cases (mem clause.operator (operators clause.type))) [
    | inr e ↦ rw e tt
    | inl e ↦ elim (Bool-cases (mem clause.field_name table.fields)) [
      | inr f ↦ rw (e, f) (counts (codes "0 = 1") refl)
      | inl f ↦
          rw (e, f)
            (>>=-Returns OptionBinds
              (typed_clause python clause.type (quoted clause.field_name) clause.operator
                clause.value)
              _
              (λ condition g.
                Returns-ok Binds
                  (typed_clause python clause.type (quoted clause.field_name) clause.operator
                    clause.value)
                  (typed_clause-AllBind python (quoted clause.field_name)
                    (IsPlain-quoted (mem-All IsPlain clause.field_name table.fields f plain_fields))
                    clause.type clause.operator clause.value)
                  g))
    ]
  ]

  search_clauses-Returns :
      (clauses : List SearchClause) → Returns (All Binds) (search_clauses python table clauses)
  unfolding search_clauses
  search_clauses-Returns [] = tt
  search_clauses-Returns (clause ∷ clauses) =
      >>=-Returns (All Binds) (search_clause python table clause) _ (λ condition e.
        >>=-Returns (All Binds) (search_clauses python table clauses) _ (λ conditions f.
          onto-Binds condition conditions
            (Returns-ok OptionBinds (search_clause python table clause)
              (search_clause-Returns clause) e)
            (Returns-ok (All Binds) (search_clauses python table clauses)
              (search_clauses-Returns clauses) f)))

connective : (or_logic : Bool) → IsPlain (if or_logic then codes " OR " else codes " AND ")
connective true = counts _ refl
connective false = counts _ refl

-- The conditions' placeholders are their parameters.
joined_marks :
    (conditions : List Condition)
    → All Binds conditions
    → HaveMarks
        (map (λ (c : Condition). c.0) conditions)
        (map (λ (c : Condition). length c.1) conditions)
joined_marks [] h = tt
joined_marks (condition ∷ conditions) h = (h.0, joined_marks conditions h.1)

length-all_params :
    (conditions : List Condition)
    → sum (map (λ (c : Condition). length c.1) conditions) ≡ length (all_params conditions)
length-all_params [] = refl
length-all_params ((condition, params) ∷ conditions) =
    omega (arith, length-append params (all_params conditions), length-all_params conditions)

where_clause-Binds :
    (searched or_logic : Bool) (conditions : List Condition)
    → All Binds conditions
    → Binds (where_clause searched or_logic conditions)
where_clause-Binds searched or_logic [] h = elim (Bool-cases (searched && or_logic)) [
  | inl e ↦ rw e (counts (codes " WHERE 0 = 1") refl)
  | inr e ↦ rw e (counts [] refl)
]
where_clause-Binds searched or_logic (condition ∷ conditions) h =
    let joined =
      HasMarks-join (if or_logic then codes " OR " else codes " AND ")
        (map (λ (c : Condition). c.0) (condition ∷ conditions))
        (map (λ (c : Condition). length c.1) (condition ∷ conditions)) (connective or_logic)
        (joined_marks (condition ∷ conditions) h) in
    as_many
      (counts (codes " WHERE ") refl ⊕ as_many joined (length-all_params (condition ∷ conditions)))
      (omega arith)

-- The WHERE clause of a page, over a table whose field names have no `%`, has one placeholder for each
-- value it binds, and no other `%`, whatever fields, operators and values are posted.
pub search-Binds :
    (python : Python) (table : Table) (page : PageRequest)
    → PlainFields table
    → Returns Binds (search python table page)
unfolding search
search-Binds python table page plain_fields =
    >>=-Returns Binds (search_clauses python table page.searches) _ (λ conditions e.
      where_clause-Binds (not (is_empty page.searches)) page.or_logic conditions (
        Returns-ok (All Binds) (search_clauses python table page.searches)
          (search_clauses-Returns python table plain_fields page.searches) e))
