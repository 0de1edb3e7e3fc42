-- ===== src/Database/Table/Keys.antt =====
-- The keys of the rows that a table returns (database/mysql/tables.py): `row['recid']`, and a `dict` of
-- rows by it. MySQL returns an integer for a key column.
use powergslb.Base.{
  Bool, true, false, ◌≡◌, refl, ap, ◌↔◌, List, [], ◌∷◌, Option, none, some, ◌==◌, ==_iff, Text,
  codes, suc, length, arith, Result, ok, err, key_error, type_error, ◌>>=◌, >>=-eq-ok, ok_inj,
}
use powergslb.Base.Dict.{Dict, Eq, get, put, text_key}
use powergslb.Base.Values.{ℤ, pos, negsuc, Value, int}
use powergslb.Routing.Create.{Spec}

abbrev pub int_eq : ℤ → ℤ → Bool
int_eq (pos m) (pos n) = m == n
int_eq (negsuc m) (negsuc n) = m == n
int_eq _ _ = false

pub int_eq_iff : (m n : ℤ) → (int_eq m n ≡ true) ↔ (m ≡ n)
int_eq_iff (pos m) (pos n) = ground (arith, ==_iff m n)
int_eq_iff (negsuc m) (negsuc n) = ground (arith, ==_iff m n)
int_eq_iff (pos m) (negsuc n) = (λ h. cc, λ h. cc)
int_eq_iff (negsuc m) (pos n) = (λ h. cc, λ h. cc)

instance abbrev pub int_key : Eq ℤ
int_key = record { beq = int_eq; beq_iff = int_eq_iff }

-- `row[name]`
abbrev value_or_error : Option Value → Result Value
value_or_error none = err key_error
value_or_error (some value) = ok value

unfoldable pub item : Text → Spec → Result Value
unfolding get
item name row = value_or_error (get name row)

abbrev an_int : Value → Result ℤ
an_int (int z) = ok z
an_int _ = err type_error

-- `row['recid']`
unfoldable pub recid_of : Spec → Result ℤ
unfolding item
recid_of row = do value ← item (codes "recid") row; an_int value

-- `[row['recid'] for row in rows]`
unfoldable pub recids : List Spec → Result (List ℤ)
unfolding recid_of
recids [] = ok []
recids (row ∷ rows) = do key ← recid_of row; keys ← recids rows; ok (key ∷ keys)

-- `{row['recid']: value(row) for row in rows}`, onto the entries before.
unfoldable pub keyed : {V : Type 0} → (Spec → Result V) → Dict ℤ V → List Spec → Result (Dict ℤ V)
unfolding recid_of put
keyed value entries [] = ok entries
keyed value entries (row ∷ rows) = do
  key ← recid_of row
  v ← value row
  keyed value (put key v entries) rows

pub length-recids :
    (rows : List Spec) {keys : List ℤ} → recids rows ≡ ok keys → length keys ≡ length rows
unfolding recids
length-recids [] h = let e = ok_inj h in rw (← e) refl
length-recids (row ∷ rows) h =
    let (key, e, f) = >>=-eq-ok {B = List ℤ} (recid_of row) _ h in
    let (keys, g, k) = >>=-eq-ok {B = List ℤ} (recids rows) _ f in
    let same = ok_inj k in rw (← same) (ap suc (length-recids rows g))
