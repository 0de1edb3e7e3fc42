-- ===== src/Server/Admin/Posted.antt =====
-- What a w2ui request posts (server/http/handler/admin.py): the token, the record and its validation, and
-- what is made of rows for a reply. `json.loads` and the libraries of the checks and the rules are
-- parameters.
use powergslb.Base.{
  Bool, false, List, [], ◌∷◌, Option, none, some, if◌then◌else◌, any, Text, codes, text_eq, Result,
  ok, err, value_error, type_error, ◌>>=◌, zero,
}
use powergslb.Base.Dict.{get, has, put, text_key}
use powergslb.Base.Values.{Value, null, str, list, dict, entries}
use powergslb.Database.Table.Keys.{item}
use powergslb.Monitor.Create.{Libraries}
use powergslb.Monitor.Desired.{build_check}
use powergslb.Routing.Create.{Spec, resolve}
use powergslb.View as View
use powergslb.View.{Casing, Netaddr}

-- A token of the tables. No token is a value of another type, and a value that is no key raises.
abbrev pub token_of : Value → Result Text
token_of (str text) = ok text
token_of (list values) = err type_error
token_of (dict fields) = err type_error
token_of _ = err value_error

-- A text that a parser is given.
abbrev text_of_value : Value → Result Text
text_of_value (str text) = ok text
text_of_value _ = err type_error

-- What the validation stands on.
pub record Validators : Type 0 where
  pub loads : Text → Result Value
  pub libraries : Libraries
  pub netaddr : Netaddr
  pub casing : Casing

-- `record[name]`, of a posted record
unfoldable pub posted : Text → Value → Result Text
unfolding item
posted name (dict fields) = do value ← item name (entries fields); text_of_value value
posted name value = err type_error

abbrev is_token : Value → Text → Bool
is_token (str text) name = text_eq text name
is_token _ name = false

module _ (validators : Validators) where
  -- The check of a monitor, for a placeholder address.
  abbrev validate_monitor : Text → Result (Unit {0})
  unfolding build_check
  validate_monitor monitor_json = do
    check ←
        build_check validators.libraries validators.loads
          (record { id = zero; content = codes "127.0.0.1"; monitor_json = monitor_json })
    ok tt

  abbrev validate_routing : Text → Result (Unit {0})
  unfolding resolve
  validate_routing policy_json = do policy ← resolve validators.loads policy_json; ok tt

  abbrev validate_view : Text → Result (Unit {0})
  unfolding View.resolve
  validate_view rule = do view_rule ← View.resolve validators.netaddr validators.casing rule; ok tt

  -- `_validate_record`
  unfoldable pub validate_record : Value → Value → Result (Unit {0})
  unfolding posted validate_monitor validate_routing validate_view
  validate_record data_token posted_record =
      if is_token data_token (codes "monitors")
      then posted (codes "monitor_json") posted_record >>= validate_monitor
      else if is_token data_token (codes "routings")
      then posted (codes "policy_json") posted_record >>= validate_routing
      else if is_token data_token (codes "views")
      then posted (codes "rule") posted_record >>= validate_view
      else ok tt

-- `**record`: a record whose keys name no other argument of `save_data`.
unfoldable pub keywords : Value → Result Spec
unfolding get
keywords (dict fields) =
    if any (λ name. has name (entries fields))
      (codes "self" ∷ codes "data" ∷ codes "save_recid" ∷ codes "user_context" ∷ [])
    then err type_error
    else ok (entries fields)
keywords value = err type_error

-- `record.get(field)`
unfoldable pub field_of : Value → Spec → Result (Option Value)
unfolding get
field_of (str name) row = ok (get name row)
field_of (list values) row = err type_error
field_of (dict fields) row = err type_error
field_of value row = ok none

-- A value before others, unless it is `None`.
abbrev onto : Option Value → List Value → List Value
onto none values = values
onto (some null) values = values
onto (some value) values = value ∷ values

-- The items of a combo.
unfoldable pub items_of_rows : Value → List Spec → Result (List Value)
unfolding field_of
items_of_rows field_name [] = ok []
items_of_rows field_name (row ∷ rows) = do
  value ← field_of field_name row
  values ← items_of_rows field_name rows
  ok (onto value values)

abbrev style : Value → Text
style (str text) = if text_eq text (codes "Off") then codes "color: red" else codes "color: green"
style _ = codes "color: green"

-- `_style_status`
unfoldable pub style_status : List Spec → Result (List Spec)
unfolding item put
style_status [] = ok []
style_status (row ∷ rows) = do
  status ← item (codes "status") row
  styled ← style_status rows
  ok (put (codes "style") (str (style status)) row ∷ styled)
