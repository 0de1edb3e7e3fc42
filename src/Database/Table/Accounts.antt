-- ===== src/Database/Table/Accounts.antt =====
-- The users' table (database/mysql/tables.py, `Users`): its writes bind the hash of the password, masked
-- in the log, and a login is checked against it.
pub mod Masking
pub mod Login
use powergslb.Base.{
  ℕ, zero, suc, Bool, true, false, ◌&&◌, ◌||◌, not, List, [], ◌∷◌, ◌++◌, map, Option, none, some,
  ◌+◌, if◌then◌else◌, Text, codes, text_eq, length, keep, Result, ok, err, Error, value_error,
  runtime_error, type_error, ◌==◌,
}
use powergslb.Base.Dict.{Dict, get, has, put, text_key}
use powergslb.Base.Values.{ℤ, pos, negsuc, Value, int, str, null}
use powergslb.Database.Page.{PageRequest, or_null}
use powergslb.Database.Program.{
  Program, returns, raises, lift, select, modify, last_insert_id, ◌>>=◌,
}
use powergslb.Database.Statement.{Param, plain, masked}
use powergslb.Database.Table.{
  Table, Kind, base, audit, records, status, users, mem, lines, quoted, insert_of, update_of,
  delete_of,
}
use powergslb.Database.Table.Keys.{item}
use powergslb.Database.Table.Reading.{is_given}
use powergslb.Database.Table.Search.{Python, int_value}
use powergslb.Password.{Crypt, hash_password, verify_password, mask}
use powergslb.Routing.Create.{Spec}
use powergslb.View.{Casing}

abbrev hash_value : Option Text → Value
hash_value none = null
hash_value (some hash) = str hash

abbrev pub masked_hash : Result (Option Text) → Result Param
masked_hash (ok hash) = ok (masked (hash_value hash))
masked_hash (err e) = err e

abbrev pub is_mask : Value → Bool
is_mask (str text) = text_eq text mask
is_mask _ = false

module _ (library : Crypt) where
  -- `Masked(hash_password(password))`
  unfoldable pub hash_param : Value → Result Param
  unfolding hash_password
  hash_param password = masked_hash (hash_password library password)

  -- The write of `Users.save`.
  unfoldable pub users_write : Table → ℤ → Value → Value → Value → Program ℕ
  unfolding hash_param insert_of update_of
  users_write table save_recid user name password =
      if not (is_given save_recid)
      then (do
        hash ← lift (hash_param password)
        modify (insert_of table 1) (plain user ∷ plain name ∷ hash ∷ []))
      else if is_mask password
      then modify (update_of table (codes "user" ∷ codes "name" ∷ []))
          (plain user ∷ plain name ∷ plain (int save_recid) ∷ [])
      else (do
        hash ← lift (hash_param password)
        modify (update_of table table.columns)
            (plain user ∷ plain name ∷ hash ∷ plain (int save_recid) ∷ []))

  -- `Users.save`
  unfoldable pub users_save : Table → ℤ → Spec → Program ℕ
  unfolding item users_write
  users_save table save_recid fields = do
    user ← lift (item (codes "user") fields)
    name ← lift (item (codes "name") fields)
    password ← lift (item (codes "password") fields)
    users_write table save_recid user name password

  -- `stored = rows[0]['password'] if rows else ''`
  abbrev pub stored_text : Value → Result Text
  stored_text (str text) = ok text
  stored_text null = ok []
  stored_text _ = err type_error

  unfoldable pub stored_of : List Spec → Program Text
  unfolding item
  stored_of [] = returns []
  stored_of (row ∷ rows) = do value ← lift (item (codes "password") row); lift (stored_text value)

  -- `[{key: value for key, value in rows[0].items() if key != 'password'}]`
  abbrev pub identity : List Spec → List Spec
  identity [] = []
  identity (row ∷ rows) = keep (λ (p : Text × Value). not (text_eq p.0 (codes "password"))) row ∷ []

  -- `Users.check_user`
  unfoldable pub check_user : Table → Text → Text → Value → Program (List Spec)
  unfolding verify_password stored_of
  check_user table dummy user password = do
    rows ←
        select
          (codes "SELECT `id`, `user`, `name`, `password` FROM "
            ++ quoted table.name
            ++ codes " WHERE `user` = %s")
          (plain (str user) ∷ [])
    stored ← stored_of rows
    accepted ← lift (verify_password library dummy password stored)
    returns (if accepted then identity rows else [])
