-- ===== src/Server/Admin.antt =====
-- The admin interface (server/http/handler/admin.py): authorization, and the w2ui commands over the
-- database. The database's state is passed on explicitly; the texts of replies and the log are left out.
pub mod Identity
pub mod Posted
pub mod Encoding
pub mod Login
pub mod Guards
pub mod Masked
use powergslb.Base.{
  Bool, true, false, ◌&&◌, not, List, [], ◌∷◌, Option, none, some, if◌then◌else◌, Text, codes,
  text_eq, is_empty, Result, ok, err, Error, value_error, type_error, length, ◌==◌, ℕ, zero, suc,
  ◌||◌,
}
use powergslb.Base.Dict.{get, text_key}
use powergslb.Base.Values.{ℤ, pos, Value, null, str, list, dict, Values}
use powergslb.Database.Page.{PageRequest, from_query, or_null}
use powergslb.Database.Program.{answered}
use powergslb.Database.Table.Paging.{Found}
use powergslb.Database.Table.Search.{Python, int_value, items_of}
use powergslb.Database.W2ui.{UserContext}
use powergslb.Routing.Create.{Spec}
use powergslb.Server.Admin.Identity.{Credentials, credentials, identity_of}
use powergslb.Server.Admin.Posted.{
  Validators, token_of, validate_record, keywords, items_of_rows, style_status,
}

-- What the handler calls of the database, on its state.
pub record Database (S : Type 0) : Type 0 where
  pub check_user : Text → Text → S → Result (List Spec) × S
  pub get_data : Text → ℤ → Option PageRequest → List ℕ → S → Result Found × S
  pub delete_data : Text → List Value → UserContext → S → Result ℕ × S
  pub save_data : Text → ℤ → UserContext → Spec → S → Result ℕ × S

-- What a handler returns or raises, with the database's state after it.
abbrev pub Step : Type 0 → Type 0 → Type 0
Step S A = S → Result A × S

module _ {S A B : Type 0} where
  infixl 5 ◌>>=◌
  abbrev pub ◌>>=◌ : (call : Step S A) (rest : A → Step S B) → Step S B
  ◌>>=◌ call rest s = answered rest (call s)

-- What does not call the database.
abbrev pub done : {S A : Type 0} → Result A → Step S A
done r s = (r, s)

-- The message of an error reply; the text of a `ValueError` is left out.
pub data Message : Type 0 where
  records_not_deleted record_not_changed record_not_found : Message
  not_implemented value_text internal_error : Message

-- A reply.
pub data Reply : Type 0 where
  success : Reply
  failed : Message → Reply
  items_reply : List Value → Reply
  record_reply : Spec → Reply
  records_reply : ℤ → List Spec → Reply

-- `_parse_query`: the query string, else the body, else nothing; `none` is a `QueryParserError`.
abbrev or_empty : Option Spec → Spec
or_empty none = []
or_empty (some query) = query

unfoldable pub parsed_query : (Text → Option Spec) → Text → Text → Spec
parsed_query parse_query query body =
    if not (is_empty query)
    then or_empty (parse_query query)
    else if not (is_empty body)
    then or_empty (parse_query body)
    else []

-- `self.query.get(name)`
unfoldable pub query_value : Text → Spec → Value
unfolding get
query_value name query = or_null (get name query)

abbrev pub replied : Message → ℕ → Reply
replied message zero = failed message
replied message (suc n) = success

-- The `except` clauses of `content`: the text of a `ValueError`, and nothing of any other exception.
abbrev pub reply_of : Result Reply → Reply
reply_of (ok reply) = reply
reply_of (err value_error) = failed value_text
reply_of (err e) = failed internal_error

module _ {S : Type 0} (database : Database S) (python : Python) (validators : Validators)
    (down_ids : List ℕ) where
  abbrev is_status : Text → Bool
  is_status data_token = text_eq data_token (codes "status")

  -- `_get_data`
  unfoldable pub get_rows_of : Value → ℤ → Option PageRequest → Step S Found
  get_rows_of data_value recid page = do
    data_token ← done (token_of data_value)
    database.get_data data_token recid page (if is_status data_token then down_ids else [])

  -- `_delete_records`
  unfoldable pub delete_records : UserContext → Spec → Step S Reply
  unfolding query_value
  delete_records context query = do
    data_token ← done (token_of (query_value (codes "data") query))
    deleted ←
        database.delete_data data_token (items_of (query_value (codes "selected") query)) context
    done (ok (replied records_not_deleted deleted))

  -- `_get_items`
  unfoldable pub get_items : Spec → Step S Reply
  unfolding query_value get_rows_of from_query items_of_rows
  get_items query = do
    page ← done (from_query python.truncate query)
    (rows, total) ← get_rows_of (query_value (codes "data") query) (pos 0) (some page)
    values ← done (items_of_rows (query_value (codes "field") query) rows)
    done (ok (items_reply values))

  abbrev first_record : List Spec → Reply
  first_record [] = failed record_not_found
  first_record (row ∷ rows) = record_reply row

  -- `_get_record`
  unfoldable pub get_record : Spec → Step S Reply
  unfolding query_value int_value get_rows_of
  get_record query = do
    recid ← done (int_value python (query_value (codes "recid") query))
    (rows, total) ← get_rows_of (query_value (codes "data") query) recid none
    done (ok (first_record rows))

  abbrev is_status_value : Value → Bool
  is_status_value (str text) = is_status text
  is_status_value _ = false

  -- `_get_records`
  unfoldable pub get_records : Spec → Step S Reply
  unfolding query_value get_rows_of from_query style_status
  get_records query = do
    page ← done (from_query python.truncate query)
    (rows, total) ← get_rows_of (query_value (codes "data") query) (pos 0) (some page)
    styled ←
        done (
          if is_status_value (query_value (codes "data") query) then style_status rows else ok rows)
    done (ok (records_reply total styled))

  -- `_save_record`
  unfoldable pub save_record : UserContext → Spec → Step S Reply
  unfolding query_value int_value validate_record keywords
  save_record context query = do
    recid ← done (int_value python (query_value (codes "recid") query))
    valid ← done (
        validate_record validators (query_value (codes "data") query)
          (query_value (codes "record") query))
    fields ← done (keywords (query_value (codes "record") query))
    data_token ← done (token_of (query_value (codes "data") query))
    affected ← database.save_data data_token recid context fields
    done (ok (replied record_not_changed affected))

  abbrev pub replying : Result Reply × S → Reply × S
  replying (r, s) = (reply_of r, s)

  -- The command's method, `none` where there is none.
  unfoldable pub command : UserContext → Spec → Text → Option (Step S Reply)
  unfolding delete_records get_items get_record get_records save_record
  command context query name =
      if text_eq name (codes "delete-records")
      then some (delete_records context query)
      else if text_eq name (codes "get-items")
      then some (get_items query)
      else if text_eq name (codes "get-record")
      then some (get_record query)
      else if text_eq name (codes "get-records")
      then some (get_records query)
      else if text_eq name (codes "save-record")
      then some (save_record context query)
      else none

  abbrev pub run_command : Option (Step S Reply) → S → Reply × S
  run_command none s = (failed not_implemented, s)
  run_command (some method) s = replying (method s)

  unfoldable pub named : UserContext → Spec → Value → Option (Step S Reply)
  unfolding command
  named context query (str name) = command context query name
  named context query value = none

  -- `content`, of a parsed query
  unfoldable pub content : UserContext → Spec → S → Reply × S
  unfolding named query_value
  content context query s = run_command (named context query (query_value (codes "cmd") query)) s
