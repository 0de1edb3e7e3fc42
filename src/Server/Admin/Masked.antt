-- ===== src/Server/Admin/Masked.antt =====
-- What a request to the admin interface logs of its query (server/http/handler/admin.py).
use powergslb.Base.{
  ◌≡◌, Bool, true, false, Option, some, if◌then◌else◌, Text, codes, text_eq, text_eq_self, arith,
  [], ◌∷◌,
}
use powergslb.Base.Dict.{get, put, get-put, text_key}
use powergslb.Base.Values.{Value, str, dict, Fields, end, field}
use powergslb.Password.{mask}
use powergslb.Routing.Create.{Spec}

-- `name in record`
unfoldable pub has_field : Text → Fields → Bool
has_field name end = false
has_field name (field key value fields) =
    let rest = has_field name fields in if text_eq key name then true else rest

-- `{**record, name: value}`
unfoldable pub with_field : Text → Value → Fields → Fields
with_field name new end = field name new end
with_field name new (field key value fields) =
    let rest = with_field name new fields in
    if text_eq key name then field key new fields else field key value rest

abbrev masked_record : Spec → Option Value → Spec
masked_record query (some (dict fields)) =
    if has_field (codes "password") fields
    then put (codes "record") (dict (with_field (codes "password") (str mask) fields)) query
    else query
masked_record query _ = query

-- `_masked_query`
unfoldable pub masked_query : Spec → Spec
unfolding has_field with_field put get
masked_query query = masked_record query (get (codes "record") query)

has_field-with_field :
    (name : Text) (value : Value) (fields : Fields)
    → has_field name (with_field name value fields) ≡ true
unfolding has_field with_field
has_field-with_field name value end = ground (arith, text_eq_self name)
has_field-with_field name value (field key old fields) =
    ground (arith, text_eq_self name, has_field-with_field name value fields)

with_field-with_field :
    (name : Text) (first second : Value) (fields : Fields)
    → with_field name second (with_field name first fields) ≡ with_field name second fields
unfolding with_field
with_field-with_field name first second end = ground (arith, text_eq_self name)
with_field-with_field name first second (field key old fields) =
    ground (arith, text_eq_self name, with_field-with_field name first second fields)

found : (name : Text) (value : Value) (query : Spec) → get name (put name value query) ≡ some value
found name value query = ground (arith, get-put name name value query, text_eq_self name)

put-put :
    (name : Text) (first second : Value) (query : Spec)
    → put name second (put name first query) ≡ put name second query
unfolding put
put-put name first second [] = ground (arith, text_eq_self name)
put-put name first second ((key, old) ∷ query) =
    ground (arith, text_eq_self name, put-put name first second query)

-- A query whose record bears this password.
abbrev pub posting : Value → Fields → Spec → Spec
posting password fields query =
    put (codes "record") (dict (with_field (codes "password") password fields)) query

-- The log is the same for every password that a query may post: with the password masked it is the query
-- that posts the mask.
pub masked_query-posting :
    (password : Value) (fields : Fields) (query : Spec)
    → masked_query (posting password fields query) ≡ posting (str mask) fields query
unfolding masked_query
masked_query-posting password fields query =
    rw
      (
        found (codes "record") (dict (with_field (codes "password") password fields)) query,
        has_field-with_field (codes "password") password fields,
        with_field-with_field (codes "password") password (str mask) fields,
      )
      (put-put (codes "record") (dict (with_field (codes "password") password fields))
        (dict (with_field (codes "password") (str mask) fields)) query)
